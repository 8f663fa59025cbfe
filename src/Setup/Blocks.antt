-- ===== src/Setup/Blocks.antt =====
-- The blocks of a new association.
use libkpnet.Base.{
  ℕ, ◌≡◌, ◌≢◌, ◌⊎◌, inl, inr, refl, sym, ap, ◌∙◌, arith, Bool, true, false, ◌||◌, ◌&&◌, eq→==,
  Option, none, some, List, ◌∷◌, ◌==◌, if◌then◌else◌, ℕ_discrete, subst,
}
use libkpnet.Umem.Slab.{Slab, slab_alloc_64b}
use libkpnet.Umem.Slab.Inv.{IsSlab}
use libkpnet.Umem.Slab.Safety.{slab_alloc_64b-IsSlab}
use libkpnet.Sctp.{Status}
use libkpnet.Setup.{Env, Given, Created, mac_missing, writes_headers, sctp_assoc_create}

-- A valid allocator with the blocks of the association among those that are held: the three that
-- are tested, and the one for the packet, which may be NULL.
abbrev pub HoldsBlocks : (base : ℕ) (ulp meta frame prefilled : ℕ) → Slab → List ℕ → Type 0
HoldsBlocks base ulp meta frame prefilled s held =
    let three = frame ∷ meta ∷ ulp ∷ held in
    ((prefilled ≡ 0) × (free : List ℕ) × IsSlab base s three free)
    ⊎ ((prefilled ≢ 0) × (free : List ℕ) × IsSlab base s (prefilled ∷ three) free)

abbrev pub HoldsNew : (base : ℕ) → Created → Slab → List ℕ → Type 0
HoldsNew base c s held = HoldsBlocks base c.ulp_at c.meta_at c.frame_at c.prefilled_at s held

module _ {base : ℕ} {a : Slab} {held : List ℕ} where
  -- A block that is not NULL is new.
  taken :
      {free : List ℕ}
      → IsSlab base a held free
      → (slab_alloc_64b base a).0 ≢ 0
      → (free' : List ℕ) × IsSlab base
          (slab_alloc_64b base a).1
          ((slab_alloc_64b base a).0 ∷ held)
          free'
  taken {free} v ne = elim (slab_alloc_64b-IsSlab free v) [
    | inl (e, _, _, _, _) ↦ absurd (ne e)
    | inr (_, _, free', v') ↦ (free', v')
  ]

  -- NULL leaves the allocator as it is.
  untouched :
      {free : List ℕ}
      → IsSlab base a held free
      → (slab_alloc_64b base a).0 ≡ 0
      → (slab_alloc_64b base a).1 ≡ a
  untouched {free} v e = elim (slab_alloc_64b-IsSlab free v) [
    | inl (_, same, _, _, _) ↦ same
    | inr (ne, _, _, _) ↦ absurd (ne e)
  ]

  -- So the next call gives NULL too.
  exhausted :
      {free : List ℕ}
      → IsSlab base a held free
      → (slab_alloc_64b base a).0 ≡ 0
      → slab_alloc_64b base (slab_alloc_64b base a).1 ≡ slab_alloc_64b base a
  exhausted v e = ap (slab_alloc_64b base) (untouched v e)

-- Why there is no association: no memory for it, a device without an address, or no block left.
abbrev pub Refused : Given → (base : ℕ) → Slab → Type 0
Refused g base s =
    (g.handle ≡ false)
    ⊎ ((mac_missing g.gateway || mac_missing g.dev) ≡ true)
    ⊎ ((slab_alloc_64b base s).0 ≡ 0)

-- The fourth call of the allocator, for the packet.
abbrev pub fourth : Env → ℕ
fourth env =
    let alloc = slab_alloc_64b env.umem in (alloc (alloc (alloc (alloc env.state_alloc).1).1).1).0

abbrev pub Outcome : Given → Env → List ℕ → Option (Option Created × Slab) → Type 0
Outcome g env held none = (fourth env ≡ 0) × (writes_headers g.gateway g.dev ≡ true)
Outcome g env held (some (none, s)) = Refused g env.umem s
Outcome g env held (some (some c, s)) =
    HoldsNew env.umem c s held × (c.prefilled_at ≡ 0 → writes_headers g.gateway g.dev ≡ false)

-- The tests of `sctp_assoc_create`, whatever comes of them.
chosen :
    {x y z w : Option (Option Created × Slab)} (P : Option (Option Created × Slab) → Type 0)
    (handle nulls missing null writes : Bool)
    → (handle ≡ false → P x)
    → (nulls ≡ true → P y)
    → (missing ≡ true → P y)
    → (null ≡ true → writes ≡ true → P z)
    → (nulls ≡ false → (null ≡ true → writes ≡ false) → P w)
    → P (
        if handle
        then (if nulls then y else (if missing then y else (if null && writes then z else w)))
        else x)
chosen P false nulls missing null writes a b c d e = a refl
chosen P true true missing null writes a b c d e = b refl
chosen P true false true null writes a b c d e = c refl
chosen P true false false true true a b c d e = d refl refl
chosen P true false false true false a b c d e = e refl (λ _. refl)
chosen P true false false false writes a b c d e = e refl (λ h. cc h)

or_false : (a b c : Bool) → (a || b || c) ≡ false → (a ≡ false) × (b ≡ false) × (c ≡ false)
or_false false false false e = (refl, refl, refl)
or_false true b c e = cc
or_false false true c e = cc
or_false false false true e = cc

some_null : {a b c : ℕ} → ((a == 0) || (b == 0) || (c == 0)) ≡ true → a ≢ 0 → b ≢ 0 → c ≢ 0 → ⊥
some_null {a} {b} {c} h n₁ n₂ n₃ = ground arith

is_null : (p : ℕ) → (p == 0) ≡ true → p ≡ 0
is_null p e = ground arith

not_null : (p : ℕ) → (p == 0) ≡ false → p ≢ 0
not_null p e h = ground arith

module _ (g : Given) (src_ip src_port dst_ip dst_port : ℕ) (status : Status) (env : Env)
    (held free : List ℕ) (v : IsSlab env.umem env.state_alloc held free) where
  abbrev alloc : Slab → ℕ × Slab
  alloc = slab_alloc_64b env.umem

  abbrev ulp : ℕ × Slab
  ulp = alloc env.state_alloc

  abbrev meta : ℕ × Slab
  meta = alloc ulp.1

  abbrev frame : ℕ × Slab
  frame = alloc meta.1

  again : {x y : ℕ × Slab} → x ≡ y → alloc x.1 ≡ alloc y.1
  again e = ap (λ (t : ℕ × Slab). alloc t.1) e

  -- A NULL among the three says that no block is left.
  no_block : ((ulp.0 == 0) || (meta.0 == 0) || (frame.0 == 0)) ≡ true → (alloc frame.1).0 ≡ 0
  no_block h = elim (ℕ_discrete ulp.0 0) [
    | yes e ↦
        ap (λ (t : ℕ × Slab). t.0) (again (again (exhausted v e) ∙ exhausted v e) ∙ exhausted v e)
        ∙ e
    | no n₁ ↦
        let (f₁, v₁) = taken v n₁ in
        elim (ℕ_discrete meta.0 0) [
          | yes e ↦ ap (λ (t : ℕ × Slab). t.0) (again (exhausted v₁ e) ∙ exhausted v₁ e) ∙ e
          | no n₂ ↦
              let (f₂, v₂) = taken v₁ n₂ in
              elim (ℕ_discrete frame.0 0) [
                | yes e ↦ ap (λ (t : ℕ × Slab). t.0) (exhausted v₂ e) ∙ e
                | no n₃ ↦ absurd (some_null h n₁ n₂ n₃)
              ]
        ]
  ]

  new_blocks :
      ((ulp.0 == 0) || (meta.0 == 0) || (frame.0 == 0)) ≡ false
      → HoldsBlocks env.umem ulp.0 meta.0 frame.0 (alloc frame.1).0 (alloc frame.1).1 held
  new_blocks h =
      let (n₁, n₂, n₃) = or_false _ _ _ h in
      let (f₁, v₁) = taken v (not_null _ n₁) in
      let (f₂, v₂) = taken v₁ (not_null _ n₂) in
      let (f₃, v₃) = taken v₂ (not_null _ n₃) in
      elim (ℕ_discrete (alloc frame.1).0 0) [
        | yes e ↦ inl (
          e,
          f₃,
          subst (λ (s : Slab). IsSlab env.umem s (frame.0 ∷ meta.0 ∷ ulp.0 ∷ held) f₃)
              (sym (untouched v₃ e)) v₃,
        )
        | no ne ↦ let (f₄, v₄) = taken v₃ ne in inr (ne, f₄, v₄)
      ]

  -- On an allocator from which every block that is held is accounted for, `sctp_assoc_create` gives
  -- NULL only where there is no memory for the association, a device that is named has no address,
  -- or no block is left; it writes through NULL only where both devices are named and no block is
  -- left for the packet; else its blocks are new ones, different from one another and from all that
  -- were held, and only the block for the packet may be NULL, where not both are named.
  pub sctp_assoc_create-Outcome :
      Outcome g env held (sctp_assoc_create g src_ip src_port dst_ip dst_port status env)
  unfolding sctp_assoc_create
  sctp_assoc_create-Outcome =
      chosen (Outcome g env held) g.handle _ _ ((alloc frame.1).0 == 0) _ inl
        (λ h. inr (inr (no_block h))) (λ h. inr (inl h)) (λ n w. (is_null _ n, w))
        (λ h i. (new_blocks h, λ e. i (eq→== _ 0 e)))
