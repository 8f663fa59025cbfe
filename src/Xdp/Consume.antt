-- ===== src/Xdp/Consume.antt =====
-- `xdp_rx` and `xdp_complete_tx` take the oldest entries off their rings.
use libkpnet.Base.{
  ℕ, ◌+◌, ◌-◌, ◌≤◌, ◌≡◌, refl, sym, ap, ap₂, ◌∙◌, arith, min, List, [], ◌++◌, length, u32, sub_u32,
  ℕ_discrete, eq→==, ne→==,
}
use libkpnet.Xdp.{XdpRing, Xdp, no_desc, read_slots, consume, xdp_rx, xdp_complete_tx}
use libkpnet.Xdp.Window.{
  IsXdpRing, used, contents, length-read_slots, read_slots-append, read_slots-shift,
}

-- `n` entries were copied out: as many as asked for, or all. They are the oldest ones, in order,
-- and the others stay; only the consumer moves.
abbrev pub Consumed : {A : Type 0} → A → XdpRing A → ℕ → ℕ × List A × XdpRing A → Type 0
Consumed d r max_n (n, out, r') =
    (n ≡ min max_n (used r))
    × (length out ≡ n)
    × (contents d r ≡ out ++ contents d r')
    × IsXdpRing r'
    × (r'.producer ≡ r.producer)
    × (r'.slots ≡ r.slots)

module _ {A : Type 0} (d : A) (r : XdpRing A) (max_n : ℕ) (v : IsXdpRing r) where
  -- The entries behind the first `n` are what the moved consumer sees.
  rest :
      (n : ℕ)
      → n ≤ used r
      → read_slots d r.slots r.consumer (0 + n) (used r - n)
        ≡ contents d (record r { consumer = u32 (r.consumer + n) })
  rest n h =
      ap₂ (λ j m. read_slots d r.slots r.consumer j m) {y = n + 0}
        {v = sub_u32 r.producer (u32 (r.consumer + n))} (omega arith)
        (omega (arith, v.prod_word, v.cons_word))
      ∙ sym (read_slots-shift d r.slots r.consumer n 0 _)

  consume_some :
      (n : ℕ)
      → n ≡ min max_n (used r)
      → Consumed d r max_n
          (n, read_slots d r.slots r.consumer 0 n, record r { consumer = u32 (r.consumer + n) })
  consume_some n e = (
    e,
    length-read_slots d r.slots r.consumer 0 n,
    read_slots-append d r.slots r.consumer 0 n (used r - n) (used r) (omega arith)
        ∙ ap (λ t. read_slots d r.slots r.consumer 0 n ++ t) (rest n (omega arith)),
    record {
      storage = v.storage;
      prod_word = v.prod_word;
      cons_word = omega arith;
      ahead = omega (arith, v.ahead, v.prod_word, v.cons_word);
    },
    refl,
    refl,
  )

  consume_none : used r ≡ 0 → Consumed d r max_n (0, [], r)
  consume_none e = (omega arith, refl, refl, v, refl, refl)

  pub consume-Consumed : Consumed d r max_n (consume d r max_n)
  unfolding consume
  consume-Consumed = elim (ℕ_discrete (used r) 0) [
    | yes e ↦ rw (eq→== (used r) 0 e) (consume_none e)
    | no ne ↦ rw (ne→== (used r) 0 ne) (consume_some _ (ground arith))
  ]

-- `xdp_rx` copies out the oldest min (max_n, available) descriptors in the order in which the
-- kernel produced them, leaves the later ones in the ring, and touches no other ring.
pub xdp_rx-Consumed :
    (x : Xdp) (max_n : ℕ)
    → IsXdpRing x.rx
    → let (n, out, x') = xdp_rx x max_n in
      Consumed no_desc x.rx max_n (n, out, x'.rx)
      × (x'.tx ≡ x.tx)
      × (x'.fill ≡ x.fill)
      × (x'.completion ≡ x.completion)
unfolding xdp_rx
xdp_rx-Consumed x max_n v = (consume-Consumed no_desc x.rx max_n v, refl, refl, refl)

-- `xdp_complete_tx` does so with the addresses in the completion ring.
pub xdp_complete_tx-Consumed :
    (x : Xdp) (max_n : ℕ)
    → IsXdpRing x.completion
    → let (n, out, x') = xdp_complete_tx x max_n in
      Consumed 0 x.completion max_n (n, out, x'.completion)
      × (x'.rx ≡ x.rx)
      × (x'.tx ≡ x.tx)
      × (x'.fill ≡ x.fill)
unfolding xdp_complete_tx
xdp_complete_tx-Consumed x max_n v = (consume-Consumed 0 x.completion max_n v, refl, refl, refl)
