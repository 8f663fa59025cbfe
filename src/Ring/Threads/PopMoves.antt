-- ===== src/Ring/Threads/PopMoves.antt =====
-- src/pop_ringbuf.c: every access keeps the invariant of the ring under several threads.
use Prim.{tt}
use libkpnet.Base.{
  ℕ, ◌+◌, ◌%◌, ◌^◌, ◌≤◌, ◌<◌, if◌then◌else◌, ◌≡◌, inl, inr, refl, arith, ap, ◌∙◌, ℕ_discrete, sym,
  subst, ne→==, eq→==, Bool, true, false, none, some, u64,
}
use libkpnet.Ring.{Cell, Ringbuf, cell_at}
use libkpnet.Ring.Index.{mod-add_self}
use libkpnet.Ring.Threads.{
  Popping, popping, popped, load_tail, check_seq, swap_tail, release, note, pop_move, set_cell,
}
use libkpnet.Ring.Threads.Inv.{seq_at, IsShared, Owns, Knows, round, cell_eq}
use libkpnet.Ring.Threads.Claims.{seq_round}
use libkpnet.Ring.Threads.Writes.{seq-after_self}
use libkpnet.Ring.Threads.Access.{
  IsAccess, quiet, written, take_tail, same_word, word_at, word_bound,
}

module _ {k : ℕ} {rb : Ringbuf} {log : ℕ → ℕ × ℕ} (v : IsShared k rb log) where
  abbrev PopKeeps : Bool → Popping → Type 0
  PopKeeps f p =
      let (rb', next) = pop_move f rb p in IsAccess k rb log (popping p) rb' (note next log) next

  seq_checked :
      (pos : ℕ) (same behind : Bool)
      → pos ≤ rb.tail
      → (same ≡ true → seq_at k rb pos ≡ pos + 1)
      → let next =
          if same
          then popping (swap_tail pos)
          else (if behind then popped none else popping load_tail) in
        IsAccess k rb log (popping (check_seq pos)) rb (note next log) next
  seq_checked pos true behind h e = quiet v _ _ refl refl (h, λ j. e refl)
  seq_checked pos false true h e = quiet v _ _ refl refl tt
  seq_checked pos false false h e = quiet v _ _ refl refl tt

  PopKeeps-seq :
      (f : Bool) (pos : ℕ) → rb.head < 2 ^ 62 → pos ≤ rb.tail → PopKeeps f (check_seq pos)
  unfolding pop_move
  PopKeeps-seq f pos small h = seq_checked pos _ _ h (λ t.
      sym (word_at v pos)
      ∙ same_word v _ (u64 (pos + 1)) (word_bound v pos small) (omega arith) t
      ∙ omega arith)

  tail_swapped :
      (pos : ℕ)
      → rb.head < 2 ^ 62
      → rb.tail ≡ pos
      → (pos ≡ rb.tail → seq_at k rb pos ≡ pos + 1)
      → IsAccess k rb log
          (popping (swap_tail pos))
          (record rb { tail = u64 (pos + 1) })
          log
          (popping (release pos))
  tail_swapped pos small e h =
      subst
        (λ (x : ℕ).
          IsAccess k rb log (popping (swap_tail pos)) (record rb { tail = x }) log
            (popping (release pos)))
        (omega arith)
        (subst
          (λ (x : ℕ).
            IsAccess k rb log (popping (swap_tail x)) (record rb { tail = x + 1 }) log
              (popping (release x)))
          e (take_tail v (ap (seq_at k rb) e ∙ h (sym e) ∙ omega (arith, e))))

  PopKeeps-swap :
      (f : Bool) (pos : ℕ)
      → rb.head < 2 ^ 62
      → Knows k rb log (popping (swap_tail pos))
      → PopKeeps f (swap_tail pos)
  unfolding pop_move
  PopKeeps-swap true pos small h = quiet v _ _ refl refl tt
  PopKeeps-swap false pos small (h, i) = elim (ℕ_discrete rb.tail pos) [
    | yes e ↦ rw (eq→== rb.tail pos e) (tail_swapped pos small e i)
    | no ne ↦
        rw (ne→== rb.tail pos ne)
          (quiet v (popping (swap_tail pos)) (popping load_tail) refl refl tt)
  ]

  PopKeeps-release :
      (f : Bool) (pos : ℕ)
      → pos < 2 ^ 62
      → Knows k rb log (popping (release pos))
      → PopKeeps f (release pos)
  unfolding pop_move
  PopKeeps-release f pos small (lo, hi, seq, ok) =
      subst
        (λ (i : ℕ).
          IsAccess k rb log (popping (release pos))
            (set_cell rb i (record (cell_at rb i) { seq = u64 (pos + rb.mask + 1) })) log
            (popped (some i)))
        (mod-add_self (2 ^ k) pos ∙ sym (cell_eq v pos))
        (let c : Cell = record (cell_at rb ((pos + 2 ^ k) % 2 ^ k)) {
          seq = u64 (pos + rb.mask + 1);
        } in
          let own : Owns k rb (pos + 2 ^ k) =
            (omega (arith, v.ordered), omega arith, inr (hi, omega (arith, seq_round k rb pos))) in
          written v _ (popped (some _)) (pos + 2 ^ k) c own
            (
              omega (arith, seq_round k rb pos, v.mask_eq, round v),
              omega (arith, v.mask_eq, round v),
              λ i. absurd (omega arith),
              λ i. inl (omega (arith, v.mask_eq, round v)),
            )
            refl (λ p e. cc)
            (λ o. ground (arith, o, seq-after_self v (pos + 2 ^ k) c own, round v, v.mask_eq)) tt)

  -- Every access of `pop_ringbuf`.
  pub pop_move-IsAccess :
      (f : Bool) (p : Popping) → rb.head < 2 ^ 62 → Knows k rb log (popping p) → PopKeeps f p
  pop_move-IsAccess f load_tail b h = unfold pop_move in (quiet v _ _ refl refl (omega arith))
  pop_move-IsAccess f (check_seq pos) b h = PopKeeps-seq f pos (omega (arith, v.ordered)) h
  pop_move-IsAccess f (swap_tail pos) b h = PopKeeps-swap f pos (omega (arith, v.ordered)) h
  pop_move-IsAccess f (release pos) b h = PopKeeps-release f pos (omega (arith, v.ordered)) h
