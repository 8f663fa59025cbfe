-- ===== src/Ring/Threads/PushMoves.antt =====
-- src/push_ringbuf.c: every access keeps the invariant of the ring under several threads.
use Prim.{tt}
use libkpnet.Base.{
  ℕ, ◌+◌, ◌%◌, ◌^◌, ◌≤◌, ◌<◌, if◌then◌else◌, ◌≡◌, inl, inr, refl, arith, ap, ◌∙◌, ℕ_discrete, sym,
  subst, ne→==, eq→==, Bool, true, false, u64,
}
use libkpnet.Ring.{Cell, Ringbuf, cell_at}
use libkpnet.Ring.Threads.{
  Pushing, pushing, pushed, load_head, load_seq, swap_head, store_packet, store_plen, store_seq,
  update, note, push_move, set_cell,
}
use libkpnet.Ring.Threads.Inv.{seq_at, IsShared, Owns, Fills, Knows, cell_eq}
use libkpnet.Ring.Threads.Writes.{Leaves, after, seq-after_self, cell_at-after_self}
use mathlib.Core.Option.{some-injective}
use libkpnet.Ring.Threads.Access.{
  IsAccess, quiet, written, take_head, same_word, word_at, word_bound,
}

module _ {k : ℕ} {rb : Ringbuf} {log : ℕ → ℕ × ℕ} (v : IsShared k rb log) where
  abbrev PushKeeps : Bool → Pushing → Type 0
  PushKeeps f p =
      let (rb', next) = push_move f rb p in IsAccess k rb log (pushing p) rb' (note next log) next

  seq_loaded :
      (a l pos : ℕ) (same behind : Bool)
      → pos ≤ rb.head
      → (same ≡ true → seq_at k rb pos ≡ pos)
      → let next =
          if same
          then pushing (swap_head a l pos)
          else (if behind then pushed false else pushing (load_head a l)) in
        IsAccess k rb log (pushing (load_seq a l pos)) rb (note next log) next
  seq_loaded a l pos true behind h e = quiet v _ _ refl refl (h, λ j. e refl)
  seq_loaded a l pos false true h e = quiet v _ _ refl refl tt
  seq_loaded a l pos false false h e = quiet v _ _ refl refl tt

  PushKeeps-seq :
      (f : Bool) (a l pos : ℕ) → rb.head < 2 ^ 62 → pos ≤ rb.head → PushKeeps f (load_seq a l pos)
  unfolding push_move
  PushKeeps-seq f a l pos small h =
      seq_loaded a l pos _ _ h
        (λ t. sym (word_at v pos) ∙ same_word v _ pos (word_bound v pos small) (omega arith) t)

  head_swapped :
      (a l pos : ℕ)
      → rb.head < 2 ^ 62
      → rb.head ≡ pos
      → (pos ≡ rb.head → seq_at k rb pos ≡ pos)
      → IsAccess k rb log
          (pushing (swap_head a l pos))
          (record rb { head = u64 (pos + 1) })
          (update log pos (a, l))
          (pushing (store_packet a l pos))
  head_swapped a l pos small e h =
      subst
        (λ (x : ℕ).
          IsAccess k rb log (pushing (swap_head a l pos)) (record rb { head = x })
            (update log pos (a, l)) (pushing (store_packet a l pos)))
        (omega arith)
        (subst
          (λ (x : ℕ).
            IsAccess k rb log (pushing (swap_head a l x)) (record rb { head = x + 1 })
              (update log x (a, l)) (pushing (store_packet a l x)))
          e (take_head v a l (ap (seq_at k rb) e ∙ h (sym e) ∙ sym e)))

  PushKeeps-swap :
      (f : Bool) (a l pos : ℕ)
      → rb.head < 2 ^ 62
      → Knows k rb log (pushing (swap_head a l pos))
      → PushKeeps f (swap_head a l pos)
  unfolding push_move
  PushKeeps-swap true a l pos small h = quiet v _ _ refl refl tt
  PushKeeps-swap false a l pos small (h, i) = elim (ℕ_discrete rb.head pos) [
    | yes e ↦ rw (eq→== rb.head pos e) (head_swapped a l pos small e i)
    | no ne ↦
        rw (ne→== rb.head pos ne)
          (quiet v (pushing (swap_head a l pos)) (pushing (load_head a l)) refl refl tt)
  ]

  -- The stores of a push.
  owned : {a l pos : ℕ} → Fills k rb log a l pos → Owns k rb pos
  owned (lo, hi, seq, ok) = (lo, omega (arith, v.fits), inl (hi, seq))

  left : {a l pos : ℕ} (c : Cell) → Fills k rb log a l pos → c.seq ≡ pos → Leaves k rb log pos c
  left {pos = pos} c (lo, hi, seq, ok) e =
      (omega (arith, e), omega (arith, e, v.fits), λ i. inl e, λ i. absurd (omega arith))

  -- The cell of a push while it fills it.
  filling :
      {a l pos : ℕ} (c : Cell)
      → Fills k rb log a l pos
      → c.seq ≡ pos
      → Fills k (after v pos c) log a l pos
  filling {pos = pos} c (lo, hi, seq, ok) e =
      (lo, hi, ap (λ (d : Cell). d.seq) (cell_at-after_self v pos c) ∙ e, ok)

  PushKeeps-packet :
      (f : Bool) (a l pos : ℕ)
      → Knows k rb log (pushing (store_packet a l pos))
      → PushKeeps f (store_packet a l pos)
  unfolding push_move
  PushKeeps-packet f a l pos h =
      subst
        (λ (i : ℕ).
          IsAccess k rb log (pushing (store_packet a l pos))
            (set_cell rb i (record (cell_at rb i) { packet = a })) log
            (pushing (store_plen a l pos)))
        (sym (cell_eq v pos))
        (let c : Cell = record (cell_at rb (pos % 2 ^ k)) { packet = a } in
          written v _ (pushing (store_plen a l pos)) pos c (owned h) (left c h h.2) refl
            (λ p e. sym (some-injective _ _ e)) (λ o. refl)
            (filling c h h.2, ap (λ (d : Cell). d.packet) (cell_at-after_self v pos c)))

  PushKeeps-plen :
      (f : Bool) (a l pos : ℕ)
      → Knows k rb log (pushing (store_plen a l pos))
      → PushKeeps f (store_plen a l pos)
  unfolding push_move
  PushKeeps-plen f a l pos (h, j) =
      subst
        (λ (i : ℕ).
          IsAccess k rb log (pushing (store_plen a l pos))
            (set_cell rb i (record (cell_at rb i) { plen = l })) log (pushing (store_seq a l pos)))
        (sym (cell_eq v pos))
        (let c : Cell = record (cell_at rb (pos % 2 ^ k)) { plen = l } in
          written v _ (pushing (store_seq a l pos)) pos c (owned h) (left c h h.2) refl
            (λ p e. sym (some-injective _ _ e)) (λ o. refl)
            (
              filling c h h.2,
              ap (λ (d : Cell). (d.packet, d.plen)) (cell_at-after_self v pos c)
                  ∙ ap (λ (x : ℕ). (x, l)) j,
            ))

  PushKeeps-store :
      (f : Bool) (a l pos : ℕ)
      → rb.head < 2 ^ 62
      → Knows k rb log (pushing (store_seq a l pos))
      → PushKeeps f (store_seq a l pos)
  unfolding push_move
  PushKeeps-store f a l pos small (h, j) =
      subst
        (λ (i : ℕ).
          IsAccess k rb log (pushing (store_seq a l pos))
            (set_cell rb i (record (cell_at rb i) { seq = u64 (pos + 1) })) log (pushed true))
        (sym (cell_eq v pos))
        (let c : Cell = record (cell_at rb (pos % 2 ^ k)) { seq = u64 (pos + 1) } in
          written v _ (pushed true) pos c (owned h)
            (
              omega arith,
              omega (arith, v.fits),
              λ i. inr (omega arith, j ∙ sym h.3),
              λ i. absurd (omega arith),
            )
            refl (λ p e. cc) (λ o. ground (arith, o, seq-after_self v pos c (owned h))) tt)

  -- Every access of `push_ringbuf`.
  pub push_move-IsAccess :
      (f : Bool) (p : Pushing) → rb.head < 2 ^ 62 → Knows k rb log (pushing p) → PushKeeps f p
  push_move-IsAccess f (load_head a l) b h =
      unfold push_move in (quiet v _ _ refl refl (omega arith))
  push_move-IsAccess f (load_seq a l pos) b h = PushKeeps-seq f a l pos (omega arith) h
  push_move-IsAccess f (swap_head a l pos) b h = PushKeeps-swap f a l pos (omega arith) h
  push_move-IsAccess f (store_packet a l pos) b h = PushKeeps-packet f a l pos h
  push_move-IsAccess f (store_plen a l pos) b h = PushKeeps-plen f a l pos h
  push_move-IsAccess f (store_seq a l pos) b h = PushKeeps-store f a l pos (omega arith) h
