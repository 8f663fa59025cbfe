-- ===== src/Xdp/Window.antt =====
-- What a ring holds: the entries between its consumer and its producer.
use libkpnet.Base.{
  ℕ, zero, suc, ◌+◌, ◌%◌, ◌^◌, ◌≤◌, ◌<◌, ◌≡◌, refl, sym, ap, ap₂, ◌∙◌, arith, List, [], ◌∷◌, ◌++◌,
  length, get_or, set, length-set, get_or-set_self, get_or-set_ne, u32, sub_u32, bit_and_mask,
  append-nil, append_assoc,
}
use libkpnet.Xdp.{XdpRing, ring_size, slot, read_slots, write_slots}

pub slot-mod : (p i : ℕ) → slot p i ≡ (p + i) % ring_size
slot-mod p i = omega (arith, bit_and_mask 12 (u32 (p + i)))

-- The kernel and the program keep the producer at most one round ahead.
pub record IsXdpRing {A : Type 0} (r : XdpRing A) : Type 0 where
  pub storage : length r.slots ≡ ring_size
  pub prod_word : r.producer < 2 ^ 32
  pub cons_word : r.consumer < 2 ^ 32
  pub ahead : sub_u32 r.producer r.consumer ≤ ring_size

abbrev pub used : {A : Type 0} → XdpRing A → ℕ
used r = sub_u32 r.producer r.consumer

module _ {A : Type 0} (d : A) where
  abbrev pub contents : XdpRing A → List A
  contents r = read_slots d r.slots r.consumer 0 (used r)

  pub length-read_slots : (s : List A) (c i n : ℕ) → length (read_slots d s c i n) ≡ n
  unfolding read_slots
  length-read_slots s c i zero = refl
  length-read_slots s c i (suc n) = ap suc (length-read_slots s c (suc i) n)

  pub read_slots-append :
      (s : List A) (c i m n k : ℕ)
      → k ≡ m + n
      → read_slots d s c i k ≡ read_slots d s c i m ++ read_slots d s c (i + m) n
  unfolding read_slots
  read_slots-append s c i zero n k e = ap₂ (λ j l. read_slots d s c j l) (omega arith) (omega arith)
  read_slots-append s c i (suc m) n zero e = absurd (omega arith)
  read_slots-append s c i (suc m) n (suc k) e =
      ap (λ t. get_or s (slot c i) d ∷ t)
        (read_slots-append s c (suc i) m n k (omega arith)
          ∙ ap (λ j. read_slots d s c (suc i) m ++ read_slots d s c j n) (omega arith))

  -- Moving the consumer on by `n` moves every position by `n`.
  pub read_slots-shift :
      (s : List A) (c n i m : ℕ) → read_slots d s (u32 (c + n)) i m ≡ read_slots d s c (n + i) m
  unfolding read_slots
  read_slots-shift s c n i zero = refl
  read_slots-shift s c n i (suc m) =
      ap₂ (λ j t. get_or s j d ∷ t) (omega (arith, slot-mod (u32 (c + n)) i, slot-mod c (n + i)))
        (read_slots-shift s c n (suc i) m ∙ ap (λ j. read_slots d s c j m) (omega arith))

  -- A write at position `k` is not seen at the positions of the same round before it.
  read_slots-set :
      (s : List A) (c i m k : ℕ) (x : A)
      → i + m ≤ k
      → k < i + ring_size
      → read_slots d (set s (slot c k) x) c i m ≡ read_slots d s c i m
  unfolding read_slots
  read_slots-set s c i zero k x h near = refl
  read_slots-set s c i (suc m) k x h near =
      ap₂ ◌∷◌
        (get_or-set_ne s (slot c k) (slot c i) x d
          (λ e. omega (arith, slot-mod c k, slot-mod c i, e)))
        (read_slots-set s c (suc i) m k x (omega arith) (omega arith))

  -- The writing loop extends what is read up to its start.
  pub read-write_slots :
      (xs s : List A) (c k : ℕ)
      → length s ≡ ring_size
      → k + length xs ≤ ring_size
      → read_slots d (write_slots s c k xs) c 0 (k + length xs) ≡ read_slots d s c 0 k ++ xs
  unfolding write_slots read_slots
  read-write_slots [] s c k len h =
      ap (λ m. read_slots d s c 0 m) (omega arith) ∙ sym (append-nil _)
  read-write_slots (x ∷ xs) s c k len h =
      let s' = set s (slot c k) x in
      ap (λ m. read_slots d (write_slots s' c (suc k) xs) c 0 m) (omega arith)
      ∙ read-write_slots xs s' c (suc k) (length-set s (slot c k) x ∙ len) (omega arith)
      ∙ ap (λ t. t ++ xs) (read_slots-append s' c 0 k 1 (suc k) (omega arith))
      ∙ append_assoc (read_slots d s' c 0 k) (read_slots d s' c (0 + k) 1) xs
      ∙ ap₂ (λ t u. t ++ (u ∷ xs)) (read_slots-set s c 0 k k x (omega arith) (omega arith))
          ((ap (λ j. get_or s' (slot c j) d) (omega arith)
            ∙ get_or-set_self s (slot c k) x d (omega (arith, slot-mod c k, len))))

  -- The producer's counter and the consumer's name the same slots.
  pub write_slots-shift :
      (xs s : List A) (c u p i k : ℕ)
      → u32 (c + u) ≡ p
      → u + i ≡ k
      → write_slots s p i xs ≡ write_slots s c k xs
  unfolding write_slots
  write_slots-shift [] s c u p i k e f = refl
  write_slots-shift (x ∷ xs) s c u p i k e f =
      write_slots-shift xs (set s (slot p i) x) c u p (suc i) (suc k) e (omega arith)
      ∙ ap (λ j. write_slots (set s j x) c (suc k) xs) (omega (arith, slot-mod p i, slot-mod c k))

  pub length-write_slots : (xs s : List A) (p i : ℕ) → length (write_slots s p i xs) ≡ length s
  unfolding write_slots
  length-write_slots [] s p i = refl
  length-write_slots (x ∷ xs) s p i =
      length-write_slots xs (set s (slot p i) x) p (suc i) ∙ length-set s (slot p i) x
