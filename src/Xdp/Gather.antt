-- ===== src/Xdp/Gather.antt =====
-- `xdp_tx_sg` sends as many of the requests as there is room for.
use libkpnet.Base.{
  ℕ, ◌+◌, ◌-◌, ◌≤◌, ◌≡◌, sym, ap, ◌∙◌, arith, min, List, ◌++◌, length, append-nil, ltb,
  if◌then◌else◌, take, length-take, subst, ℕ_discrete, eq→==, ne→==,
}
use libkpnet.Xdp.{Xdp, Desc, no_desc, ring_size, free_slots, xdp_tx_sg}
use libkpnet.Xdp.Window.{IsXdpRing, used, contents}
use libkpnet.Xdp.Produce.{produce, contents-produce, produce-IsXdpRing}

-- The first `m` requests follow what was in the ring, `m` being all of them or all that fit.
abbrev pub Gathered : Xdp → List Desc → ℕ → ℕ × Xdp → Type 0
Gathered x reqs n (m, x') =
    (m ≡ min n (ring_size - used x.tx))
    × (contents no_desc x'.tx ≡ contents no_desc x.tx ++ take m reqs)
    × IsXdpRing x'.tx

module _ (x : Xdp) (reqs : List Desc) (n : ℕ) (v : IsXdpRing x.tx) (enough : n ≤ length reqs) where
  gather :
      (m : ℕ)
      → m ≡ min n (ring_size - used x.tx)
      → Gathered x reqs n (m, record x { tx = produce x.tx (take m reqs) m })
  gather m e =
      let same : length (take m reqs) ≡ m = length-take m reqs (omega arith) in
      let fits : used x.tx + length (take m reqs) ≤ ring_size = omega (arith, same, v.ahead) in
      (
        e,
        ap (λ k. contents no_desc (produce x.tx (take m reqs) k)) (sym same)
            ∙ contents-produce no_desc x.tx (take m reqs) v fits,
        subst (λ k. IsXdpRing (produce x.tx (take m reqs) k)) same
            (produce-IsXdpRing no_desc x.tx (take m reqs) v fits),
      )

  gather_none : (m : ℕ) → m ≡ min n (ring_size - used x.tx) → m ≡ 0 → Gathered x reqs n (0, x)
  gather_none m e z = (omega arith, sym (append-nil _), v)

  -- `xdp_tx_sg` puts the first min (n, free slots) requests, flags included, behind what the ring
  -- holds, and returns that number.
  pub xdp_tx_sg-Gathered : Gathered x reqs n (xdp_tx_sg x reqs n)
  unfolding xdp_tx_sg
  xdp_tx_sg-Gathered =
      let m = if ltb (free_slots x.tx) n then free_slots x.tx else n in
      let e : m ≡ min n (ring_size - used x.tx) = ground (arith, v.ahead) in
      elim (ℕ_discrete m 0) [
        | yes z ↦ rw (eq→== m 0 z) (gather_none m e z)
        | no ne ↦ rw (ne→== m 0 ne) (gather m e)
      ]
