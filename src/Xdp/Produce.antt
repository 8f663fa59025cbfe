-- ===== src/Xdp/Produce.antt =====
-- `xdp_tx` and `xdp_tx_sg` add descriptors behind those that the kernel has not taken yet.
use libkpnet.Base.{
  ℕ, suc, ◌+◌, ◌≤◌, ◌<◌, ◌≡◌, refl, sym, ap, ap₂, ◌∙◌, arith, List, [], ◌∷◌, ◌++◌, length, u32, ltb,
  ◌==◌, ◌||◌, take, length-take, Bool-cases, inl, inr, ◌⊎◌, subst,
}
use libkpnet.Xdp.{
  XdpRing, Xdp, Desc, no_desc, ring_size, pkt_contd, xdp_max_segs, read_slots, write_slots,
  free_slots, tx_descs, xdp_tx,
}
use libkpnet.Xdp.Window.{
  IsXdpRing, used, contents, read-write_slots, write_slots-shift, length-write_slots,
}

-- The ring after `xs` are written from its producer on.
abbrev pub produce : {A : Type 0} → XdpRing A → List A → ℕ → XdpRing A
produce r xs n = record r {
  slots = write_slots r.slots r.producer 0 xs;
  producer = u32 (r.producer + n);
}

module _ {A : Type 0} (d : A) (r : XdpRing A) (xs : List A) (v : IsXdpRing r)
    (fits : used r + length xs ≤ ring_size) where
  pub produce-IsXdpRing : IsXdpRing (produce r xs (length xs))
  produce-IsXdpRing = record {
    storage = length-write_slots d xs r.slots r.producer 0 ∙ v.storage;
    prod_word = omega arith;
    cons_word = v.cons_word;
    ahead = omega (arith, v.prod_word, v.cons_word);
  }

  -- The entries already there stay, and the new ones follow them.
  pub contents-produce : contents d (produce r xs (length xs)) ≡ contents d r ++ xs
  contents-produce =
      ap₂ (λ s m. read_slots d s r.consumer 0 m)
        (write_slots-shift d xs r.slots r.consumer (used r) r.producer 0 (used r)
          (omega (arith, v.prod_word, v.cons_word)) (omega arith))
        (omega (arith, v.prod_word, v.cons_word))
      ∙ read-write_slots d xs r.slots r.consumer (used r) v.storage fits

-- One packet: every descriptor but the last says that it goes on.
abbrev pub IsPacket : List Desc → Type 0
IsPacket [] = ⊥
IsPacket (e ∷ []) = e.options ≡ 0
IsPacket (e ∷ f ∷ ds) = (e.options ≡ pkt_contd) × IsPacket (f ∷ ds)

-- The address and the length of each descriptor.
abbrev pub segments : List Desc → List (ℕ × ℕ)
segments [] = []
segments (e ∷ ds) = (e.addr, e.len) ∷ segments ds

length-tx_descs : (n i : ℕ) (segs : List (ℕ × ℕ)) → length (tx_descs n i segs) ≡ length segs
unfolding tx_descs
length-tx_descs n i [] = refl
length-tx_descs n i ((a, l) ∷ segs) = ap suc (length-tx_descs n (suc i) segs)

segments-tx_descs : (n i : ℕ) (segs : List (ℕ × ℕ)) → segments (tx_descs n i segs) ≡ segs
unfolding tx_descs
segments-tx_descs n i [] = refl
segments-tx_descs n i ((a, l) ∷ segs) = ap (λ t. (a, l) ∷ t) (segments-tx_descs n (suc i) segs)

IsPacket-tx_descs :
    (n i : ℕ) (segs : List (ℕ × ℕ)) → i + length segs ≡ n → i < n → IsPacket (tx_descs n i segs)
unfolding tx_descs
IsPacket-tx_descs n i [] e h = omega arith
IsPacket-tx_descs n i ((a, l) ∷ []) e h = ground arith
IsPacket-tx_descs n i ((a, l) ∷ s ∷ segs) e h =
    (ground arith, IsPacket-tx_descs n (suc i) (s ∷ segs) (omega arith) (omega arith))

-- The packet went out whole, as `n` descriptors for the segments, behind what was in the ring.
abbrev pub Sent : Xdp → List (ℕ × ℕ) → ℕ → ℕ × Xdp → Type 0
Sent x segs n (m, x') =
    (m ≡ n)
    × (ds : List Desc) × IsPacket ds
    × (segments ds ≡ take n segs)
    × (contents no_desc x'.tx ≡ contents no_desc x.tx ++ ds)
    × IsXdpRing x'.tx

-- Nothing was done.
abbrev pub Refused : Xdp → ℕ → ℕ × Xdp → Type 0
Refused x n (m, x') =
    (m ≡ 0) × (x' ≡ x) × ((n ≡ 0) ⊎ (xdp_max_segs < n) ⊎ (ring_size < used x.tx + n))

module _ (x : Xdp) (segs : List (ℕ × ℕ)) (n : ℕ) (v : IsXdpRing x.tx)
    (enough : n ≤ length segs) where
  abbrev ds : List Desc
  ds = tx_descs n 0 (take n segs)

  count_descs : length ds ≡ n
  count_descs = length-tx_descs n 0 (take n segs) ∙ length-take n segs enough

  send : 1 ≤ n → used x.tx + n ≤ ring_size → Sent x segs n (n, record x { tx = produce x.tx ds n })
  send pos room =
      let fits : used x.tx + length ds ≤ ring_size = omega (arith, count_descs) in
      (
        refl,
        ds,
        IsPacket-tx_descs n 0 (take n segs) (omega (arith, length-take n segs enough)) pos,
        segments-tx_descs n 0 (take n segs),
        ap (λ m. contents no_desc (produce x.tx ds m)) (sym count_descs)
            ∙ contents-produce no_desc x.tx ds v fits,
        subst (λ m. IsXdpRing (produce x.tx ds m)) count_descs
            (produce-IsXdpRing no_desc x.tx ds v fits),
      )

  -- `xdp_tx` is all or nothing: it sends a packet of 1 to 16 segments for which the ring has room
  -- as a whole, with its segments in order and only the last one marked as the end; in every other
  -- case it returns 0 and changes nothing.
  pub xdp_tx_all_or_nothing :
      ((1 ≤ n) × (n ≤ 16) × Sent x segs n (xdp_tx x segs n)) ⊎ Refused x n (xdp_tx x segs n)
  unfolding xdp_tx
  xdp_tx_all_or_nothing = elim (Bool-cases (n == 0 || ltb xdp_max_segs n)) [
    | inl bad ↦ rw bad (inr (refl, refl, ground arith))
    | inr good ↦ rw good (elim (Bool-cases (ltb (free_slots x.tx) n)) [
      | inl full ↦ rw full (inr (refl, refl, inr (inr (ground (arith, v.ahead)))))
      | inr room ↦
          rw room (inl (ground arith, ground arith, send (ground arith) (ground (arith, v.ahead))))
    ])
  ]
