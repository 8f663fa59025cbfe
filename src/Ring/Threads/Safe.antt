-- ===== src/Ring/Threads/Safe.antt =====
-- Every interleaving of pushes and pops keeps the invariant.
use Prim.{tt}
use libkpnet.Base.{
  mod-eq_of_lt, ℕ, suc, ◌+◌, ◌%◌, ◌^◌, ◌≤◌, ◌<◌, ◌≡◌, ◌≢◌, inl, inr, refl, arith, ap, ◌∙◌,
  ℕ_discrete, sym, subst, ne→==, eq→==, Bool, true, Bool-cases, none, some, List, [], ◌∷◌, length,
}
use libkpnet.Ring.{Ringbuf, cell_at}
use libkpnet.Ring.Inv.{IsRing, two-le-pow, pow-le-half}
use libkpnet.Ring.Threads.{
  Pc, idle, pushing, popping, pushed, popped, update, note, move, System, Event, call_push,
  call_pop, access, outside, call, step, run, start,
}
use libkpnet.Ring.Threads.Inv.{seq_at, Owns, Knows, own_pos, IsSafe}
use libkpnet.Ring.Threads.Access.{IsAccess, quiet}
use libkpnet.Ring.Threads.PushMoves.{push_move-IsAccess}
use libkpnet.Ring.Threads.PopMoves.{pop_move-IsAccess}

module _ {k n : ℕ} {s : System} (v : IsSafe k n s) where
  -- A thread moves, and the others stay where they are.
  module _ (i : ℕ) {rb : Ringbuf} {log : ℕ → ℕ × ℕ} (p : Pc)
      (a : IsAccess k s.ring s.log (s.pc i) rb log p) where
    pcs : ℕ → Pc
    pcs = update s.pc i p

    pcs_self : pcs i ≡ p
    unfolding pcs
    pcs_self = rw (eq→== i i refl) refl

    pcs_ne : (j : ℕ) → i ≢ j → pcs j ≡ s.pc j
    unfolding pcs
    pcs_ne j ne = rw (ne→== i j ne) refl

    abbrev WithPcs : Type 0
    WithPcs = IsSafe k (suc n) (record { ring = rb; pc = pcs; log = log })

    others_known : (j : ℕ) → i ≢ j → Knows k rb log (s.pc j)
    others_known j ne = a.others (s.pc j) (λ q e f. ne (v.alone i j e f)) (v.knows j)

    Knows-pcs : (j : ℕ) → Knows k rb log (pcs j)
    Knows-pcs j = elim (ℕ_discrete i j) [
      | yes e ↦
          subst (λ (x : ℕ). Knows k rb log (pcs x)) e
            (subst (Knows k rb log) (sym pcs_self) a.known)
      | no ne ↦ subst (Knows k rb log) (sym (pcs_ne j ne)) (others_known j ne)
    ]

    -- A thread that owns what the moved thread owns is that thread.
    alone_self : (j : ℕ) {q : ℕ} → own_pos k p ≡ some q → own_pos k (pcs j) ≡ some q → i ≡ j
    alone_self j e f = elim (ℕ_discrete i j) [
      | yes h ↦ h
      | no ne ↦
          let g : own_pos k (s.pc j) ≡ some _ = ap (own_pos k) (sym (pcs_ne j ne)) ∙ f in
          v.alone i j (a.fresh (s.pc j) (v.knows j) e g) g
    ]

    alone_pcs : (j l : ℕ) {q : ℕ} → own_pos k (pcs j) ≡ some q → own_pos k (pcs l) ≡ some q → j ≡ l
    alone_pcs j l {q} e f = elim (ℕ_discrete i j) [
      | yes h ↦ sym h ∙ alone_self l (ap (own_pos k) (sym pcs_self ∙ ap pcs h) ∙ e) f
      | no ne ↦ elim (ℕ_discrete i l) [
        | yes h ↦ sym (alone_self j (ap (own_pos k) (sym pcs_self ∙ ap pcs h) ∙ f) e) ∙ h
        | no nl ↦
            v.alone j l (ap (own_pos k) (sym (pcs_ne j ne)) ∙ e)
              (ap (own_pos k) (sym (pcs_ne l nl)) ∙ f)
      ]
    ]

    busy_pcs : (q : ℕ) → Owns k rb q → (j : ℕ) × (own_pos k (pcs j) ≡ some q)
    busy_pcs q o = elim (a.busy q o) [
      | inl e ↦ (i, ap (own_pos k) pcs_self ∙ e)
      | inr (h, ne) ↦
          let (j, e) = v.busy q h in
          (j, ap (own_pos k) (pcs_ne j (λ f. ne (ap (λ (x : ℕ). own_pos k (s.pc x)) f ∙ e))) ∙ e)
    ]

    pub IsAccess-IsSafe : IsSafe k (suc n) (record { ring = rb; pc = update s.pc i p; log = log })
    IsAccess-IsSafe =
        unfold pcs in
        (record {
          shared = a.shared;
          few = omega (arith, a.small, v.few);
          knows = Knows-pcs;
          busy = busy_pcs;
          alone = alone_pcs;
        })

  later : IsSafe k (suc n) s
  later = record {
    shared = v.shared;
    few = omega (arith, v.few);
    knows = v.knows;
    busy = v.busy;
    alone = v.alone;
  }

  -- A thread outside both functions owns nothing.
  own_pos-outside : (p : Pc) → outside p ≡ true → own_pos k p ≡ none
  own_pos-outside idle h = refl
  own_pos-outside (pushing p) h = cc
  own_pos-outside (popping p) h = cc
  own_pos-outside (pushed ok) h = refl
  own_pos-outside (popped cell) h = refl

  call-IsSafe :
      (i : ℕ) (p : Pc) → own_pos k p ≡ none → Knows k s.ring s.log p → IsSafe k (suc n) (call s i p)
  call-IsSafe i p e h = elim (Bool-cases (outside (s.pc i))) [
    | inl o ↦ rw o (IsAccess-IsSafe i p (quiet v.shared _ p (own_pos-outside (s.pc i) o) e h))
    | inr o ↦ rw o later
  ]

  move-IsAccess :
      (f : Bool) (p : Pc)
      → s.ring.head < 2 ^ 62
      → Knows k s.ring s.log p
      → let (rb, next) = move f s.ring p in IsAccess k s.ring s.log p rb (note next s.log) next
  move-IsAccess f idle b h = quiet v.shared _ _ refl refl tt
  move-IsAccess f (pushed ok) b h = quiet v.shared _ _ refl refl tt
  move-IsAccess f (popped cell) b h = quiet v.shared _ _ refl refl tt
  move-IsAccess f (pushing p) b h = push_move-IsAccess v.shared f p b h
  move-IsAccess f (popping p) b h = pop_move-IsAccess v.shared f p b h

  pub step-IsSafe : n < 2 ^ 62 → (e : Event) → IsSafe k (suc n) (step s e)
  unfolding step
  step-IsSafe b (call_push i a l) = call-IsSafe i _ refl tt
  step-IsSafe b (call_pop i) = call-IsSafe i _ refl tt
  step-IsSafe b (access i f) =
      IsAccess-IsSafe i _ (move-IsAccess f (s.pc i) (omega (arith, v.few)) (v.knows i))

pub run-IsSafe :
    {k : ℕ} (es : List Event) {n : ℕ} {s : System}
    → IsSafe k n s
    → n + length es ≤ 2 ^ 62
    → IsSafe k (n + length es) (run s es)
unfolding run
run-IsSafe {k} [] {n} {s} v h = subst (λ (m : ℕ). IsSafe k m s) (omega arith) v
run-IsSafe {k} (e ∷ es) {n} {s} v h =
    subst (λ (m : ℕ). IsSafe k m (run (step s e) es)) (omega arith)
      (run-IsSafe es (step-IsSafe v (omega arith) e) (omega arith))

module _ {k : ℕ} {rb : Ringbuf} (v : IsRing k 0 0 rb) where
  fresh_seq : (q : ℕ) → q < 2 ^ k → seq_at k rb q ≡ q
  fresh_seq q h =
      ap (seq_at k rb) {x = q} {y = 0 + q} (omega arith)
      ∙ v.vacant q (omega arith) h
      ∙ omega (arith, pow-le-half k v.narrow)

  fresh_bound : (q : ℕ) → seq_at k rb q ≤ 2 ^ k
  fresh_bound q =
      let pos : 0 < 2 ^ k = omega (arith, two-le-pow k v.wide) in
      let e : q % 2 ^ k % 2 ^ k ≡ q % 2 ^ k =
        mod-eq_of_lt {n = q % 2 ^ k} {m = 2 ^ k} (omega arith) in
      omega (arith, fresh_seq (q % 2 ^ k) (omega arith), ap (λ (i : ℕ). (cell_at rb i).seq) e)

-- An empty ring with all threads outside.
pub start-IsSafe : {k : ℕ} {rb : Ringbuf} → IsRing k 0 0 rb → IsSafe k 0 (start rb)
start-IsSafe {k} {rb} v = record {
  shared = record {
    wide = v.wide;
    narrow = v.narrow;
    mask_eq = v.mask_eq;
    cells_eq = v.cells_eq;
    bound = λ q. omega (arith, fresh_bound v q);
    passed = λ q h. absurd (omega (arith, v.tail_eq));
    ordered = omega (arith, v.head_eq, v.tail_eq);
    fits = omega (arith, v.head_eq, v.tail_eq);
    filled = λ q lo hi. absurd (omega (arith, v.head_eq, v.tail_eq));
    vacant = λ q lo hi. inl (fresh_seq v q (omega (arith, v.tail_eq)));
  };
  few = omega (arith, v.head_eq);
  knows = λ i. tt;
  busy =
      λ q o. absurd (ground (arith, o, fresh_seq v q, v.head_eq, v.tail_eq, two-le-pow k v.wide));
  alone = λ i j e f. cc;
}
