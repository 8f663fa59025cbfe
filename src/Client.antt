-- ===== src/Client.antt =====
-- src/create_client.c, src/build_prefilled_mac_ip_sctp_init_hdr.c: the client's INIT, and the loop
-- that sends it again whenever the timer T1 expires. `none` says that a loop does not end, or that
-- its fuel ran out.
pub mod Sends
pub mod Waits
pub mod GivesUp
pub mod Starts
mod Tests
use libkpnet.Base.{
  ℕ, zero, suc, ◌+◌, ◌-◌, ◌*◌, ◌/◌, Bool, Option, none, some, List, [], ◌∷◌, ◌++◌, min, u64,
  sub_u32, sub_u64, bswap16, bswap32, ltb, leb, ◌==◌, if◌then◌else◌,
}
use libkpnet.Wire.{le16, le32}
use libkpnet.Xdp.{Xdp}
use libkpnet.Sctp.{Ulp, type_init}
use libkpnet.Sctp.Build.{Draws}
use libkpnet.Sctp.Packet.{Packet, sctp_prepare_packet, sctp_push_to_xdp_segs, eth_send_sctp}
use libkpnet.Timer.{Wheel, insert_ringtimer, tick_ringtimer}

abbrev pub timer_step : ℕ
timer_step = 1000

abbrev pub rto_max : ℕ
rto_max = 60000

abbrev pub max_retrans : ℕ
max_retrans = 10

abbrev pub t1_init_expire : ℕ
t1_init_expire = 1

abbrev pub init_bytes : ℕ
init_bytes = 20

-- The whole `hdr` of the INIT.
unfoldable pub init_chunk : Draws → Ulp → List ℕ
init_chunk d ulp =
    type_init ∷ 0 ∷ le16 (bswap16 init_bytes)
    ++ le32 d.init_tag
    ++ le32 (bswap32 ulp.src_arwnd)
    ++ le16 (bswap16 ulp.src_os)
    ++ le16 (bswap16 ulp.src_mis)
    ++ le32 d.init_tsn

-- The bytes that are written at `umem_hdrs_cursor`, and the packet and the rings after sending.
unfoldable pub build_prefilled_mac_ip_sctp_init_hdr :
    (fuel : ℕ) → (Xdp → Xdp) → Draws → Ulp → Packet → Xdp → List ℕ × (Packet × Option Xdp)
build_prefilled_mac_ip_sctp_init_hdr fuel kernel d ulp p x =
    let shrunk = record p { remain_plen = sub_u32 p.remain_plen init_bytes } in
    (init_chunk d ulp, eth_send_sctp fuel kernel (sctp_push_to_xdp_segs shrunk init_bytes).1 x)

-- What the loop of the client keeps: `assoc->timer`, the local variables, and what it sends.
pub record Client : Type 0 where
  pub timer : Wheel
  pub t1_timer : ℕ
  pub handshake_retrans : ℕ
  pub global_time : ℕ
  pub packet : Packet
  pub xdp : Xdp

abbrev pub resent : Client → Wheel → (t1_timer : ℕ) → Packet × Option Xdp → Option Client
resent s w t1 (p, none) = none
resent s w t1 (p, some x) = some (record s {
  timer = w;
  t1_timer = t1;
  handshake_retrans = u64 (s.handshake_retrans + 1);
  packet = p;
  xdp = x;
})

abbrev pub restarted :
    (fuel : ℕ) → (Xdp → Xdp) → Client → (t1_timer : ℕ) → Option (Bool × Wheel) → Option Client
restarted fuel kernel s t1 none = none
restarted fuel kernel s t1 (some (_, w)) = resent s w t1 (eth_send_sctp fuel kernel s.packet s.xdp)

-- `case SCTP_T1_INIT_EXPIRE`; what the insertion returns is not looked at.
abbrev pub t1_expired : (fuel : ℕ) → (Xdp → Xdp) → Client → Option Client
t1_expired fuel kernel s =
    let t1 = min (u64 (s.t1_timer * 2)) (rto_max / timer_step) in
    restarted fuel kernel s t1 (insert_ringtimer t1_init_expire t1 s.timer)

abbrev pub on_signal : (fuel : ℕ) → (Xdp → Xdp) → ℕ → Option Client → Option Client
on_signal fuel kernel signal none = none
on_signal fuel kernel signal (some s) =
    if signal == t1_init_expire then t1_expired fuel kernel s else some s

-- The signals of a tick, the last one first.
pub on_signals : (fuel : ℕ) → (Xdp → Xdp) → List ℕ → Client → Option Client
on_signals fuel kernel [] s = some s
on_signals fuel kernel (x ∷ xs) s = on_signal fuel kernel x (on_signals fuel kernel xs s)

abbrev pub stepped : Option Client → Option Client
stepped none = none
stepped (some s) = some (record s { global_time = u64 (s.global_time + timer_step) })

abbrev pub ticked : (fuel : ℕ) → (Xdp → Xdp) → Client → Option (List ℕ × Wheel) → Option Client
ticked fuel kernel s none = none
ticked fuel kernel s (some (out, w)) = stepped (on_signals fuel kernel out (record s { timer = w }))

-- One round of the loop over the seconds that have passed.
unfoldable pub client_tick : (fuel : ℕ) → (Xdp → Xdp) → Client → Option Client
client_tick fuel kernel s = ticked fuel kernel s (tick_ringtimer fuel s.timer)

abbrev pub proceed : (Client → Option Client) → Option Client → Option Client
proceed next none = none
proceed next (some s) = next s

-- That loop, with `now` for `g_current_time`, on fuel for its rounds.
pub catch_up : (rounds fuel : ℕ) → (Xdp → Xdp) → (now : ℕ) → Client → Option Client
catch_up zero fuel kernel now s = none
catch_up (suc rounds) fuel kernel now s =
    if leb timer_step (sub_u64 now s.global_time)
    then proceed (catch_up rounds fuel kernel now) (client_tick fuel kernel s)
    else some s

-- The outer loop, `clock i` being what `update_time` returns in its round `i`. The result is the
-- state at the `break`.
pub client_loop :
    (rounds catches fuel : ℕ) → (Xdp → Xdp) → (clock : ℕ → ℕ) → (i : ℕ) → Client → Option Client
client_loop zero catches fuel kernel clock i s = none
client_loop (suc rounds) catches fuel kernel clock i s =
    if ltb max_retrans s.handshake_retrans
    then some s
    else proceed (client_loop rounds catches fuel kernel clock (suc i))
        (catch_up catches fuel kernel (clock i) s)

abbrev pub timed : (now : ℕ) → Packet → Xdp → Option (Bool × Wheel) → Option Client
timed now p x none = none
timed now p x (some (_, w)) = some (record {
  timer = w;
  t1_timer = 1000 / timer_step;
  handshake_retrans = 0;
  global_time = now;
  packet = p;
  xdp = x;
})

abbrev pub sent : (now : ℕ) → Wheel → Packet × Option Xdp → Option Client
sent now timer (p, none) = none
sent now timer (p, some x) =
    timed now p x (insert_ringtimer t1_init_expire (1000 / timer_step) timer)

-- From `sctp_prepare_packet` up to the loop: `cursor` is the block from `slab_alloc_64b`, `timer`
-- the new wheel, `now` the time.
unfoldable pub client_start :
    (fuel : ℕ) → (Xdp → Xdp) → Draws → Ulp → (cursor now : ℕ) → Wheel → Packet → Xdp → Option Client
client_start fuel kernel d ulp cursor now timer p x =
    let ready = record (sctp_prepare_packet p) { umem_hdrs_cursor = cursor } in
    sent now timer (build_prefilled_mac_ip_sctp_init_hdr fuel kernel d ulp ready x).1
