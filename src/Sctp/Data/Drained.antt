-- ===== src/Sctp/Data/Drained.antt =====
-- The call for a stream without data: packet after packet goes out, until a NULL is dereferenced.
use libkpnet.Base.{ℕ, suc, ◌+◌, ◌≡◌, none, some}
use libkpnet.Ring.{Ringbuf, pop_ringbuf}
use libkpnet.Ring.Queue
use libkpnet.Ring.Queue.{Queue}
use libkpnet.Sctp.Data.{Stream, Sender, flush, data_loop, proceed, sctp_build_data_hdr}
use libkpnet.Sctp.Data.Chunks.{IsSpent}

-- So many packets are sent one after another.
pub data Flushes : ℕ → Sender → Sender → Type 0 where
  done : {s : Sender} → Flushes 0 s s
  next :
      {n : ℕ} {s s'' : Sender} (s' : Sender)
      → flush s ≡ some s'
      → Flushes n s' s''
      → Flushes (suc n) s s''

-- There is no prefilled packet left, so that `cell` is NULL behind the label `flush`.
abbrev pub CellIsNull : Sender → Type 0
CellIsNull s = (r : Ringbuf) × (pop_ringbuf 0 s.net.prefilled ≡ some (none, r))

abbrev Drains : (n stream_id : ℕ) → Stream → Sender → Type 0
Drains n stream_id t s =
    (s' : Sender) × Flushes n s s'
    × CellIsNull s'
    × IsSpent stream_id t s'
    × ((fuel : ℕ) → data_loop (n + fuel) stream_id s ≡ data_loop fuel stream_id s')

-- The call in a packet with room, for a stream without data left: it sends as many packets as the
-- ring of prefilled packets holds, one after another, and is then behind the test of the data with
-- that ring empty, where the next `flush` dereferences the NULL that `pop_ringbuf` gives.
abbrev pub Spends : (n stream_id : ℕ) → Sender → Type 0
Spends n stream_id s =
    (s' : Sender) × Flushes n s s'
    × CellIsNull s'
    × ((fuel : ℕ)
        → sctp_build_data_hdr (n + suc fuel) stream_id s
          ≡ proceed (data_loop fuel stream_id) (flush s'))
