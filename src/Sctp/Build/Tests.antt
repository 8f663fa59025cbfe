-- ===== src/Sctp/Build/Tests.antt =====
-- A buffer for packets from 127.0.0.1 that is patched for 127.0.0.2.
use Prim.{tt}
use libkpnet.Base.{arith, ◌↔◌, []}
use libkpnet.Wire.{HwAddr}
use libkpnet.Sctp.Build.Patched.{
  Fields, FieldBytes, IpPasses, LosesCarry, patched, len, prefilled_check, patch_ip-IpPasses,
}

abbrev hw : HwAddr
hw = record { a0 = 2; a1 = 0; a2 = 0; a3 = 0; a4 = 0; a5 = 9 }

abbrev fields : Fields
fields = record {
  version = 69;
  tos = 0;
  id0 = 1;
  id1 = 2;
  off0 = 0;
  off1 = 0;
  ttl = 181;
  proto = 132;
  src0 = 127;
  src1 = 0;
  src2 = 0;
  src3 = 1;
}

fields-FieldBytes : FieldBytes fields
fields-FieldBytes = (
  omega arith,
  (
    omega arith,
    (
      omega arith,
      (
        omega arith,
        (
          omega arith,
          (
            omega arith,
            (
              omega arith,
              (
                omega arith,
                (
                  omega arith,
                  (
                    omega arith,
                    (
                      omega arith,
                      (
                        omega arith,
                        (
                          omega arith,
                          (
                            omega arith,
                            (
                              omega arith,
                              (
                                omega arith,
                                (omega arith, (omega arith, (omega arith, (omega arith, tt)))),
                              ),
                            ),
                          ),
                        ),
                      ),
                    ),
                  ),
                ),
              ),
            ),
          ),
        ),
      ),
    ),
  ),
)

patch_ip-IpPasses_example :
    IpPasses (patched hw hw 8 fields [] 50 33554559)
    ↔ LosesCarry (prefilled_check fields) (len 50) 33554559
patch_ip-IpPasses_example =
    patch_ip-IpPasses hw hw 8 fields [] 50 33554559 fields-FieldBytes (omega arith) (omega arith)
      (omega arith)
