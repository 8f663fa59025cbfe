-- ===== src/Sctp/Process/Echo.antt =====
-- A COOKIE ECHO is accepted if and only if its cookie bears the tag of the key, and then the
-- association is in the state that the cookie was made from.
use Prim.{tt}
use libkpnet.Base.{
  length-drop, ℕ, zero, suc, ◌≤◌, ◌≡◌, refl, sym, ap, ◌∙◌, subst, arith, Bool, true, false,
  Bool-cases, inl, inr, Option, none, some, List, [], ◌∷◌, ◌++◌, length, take, drop,
  take-append_left, drop-append_left, ltb, ◌==◌, bswap16, append_assoc,
}
use libkpnet.Wire.{fld_bytes}
use libkpnet.Crc.{Host}
use libkpnet.Sctp.{Assoc, Net}
use libkpnet.Sctp.Cookie.{
  Cookie, cookie_bytes, hmac_md5_key_len, encode_cookie, cookie_at, cookie_key, hmac_md5, tag_diff,
}
use libkpnet.Sctp.Cookie.Tag.{IsMd5, length-hmac_md5, tag_diff-zero, tag_diff-same, tag_diff-take}
use libkpnet.Sctp.Cookie.RoundTrip.{length-encode_cookie}
use libkpnet.Sctp.Build.{Draws, signed_cookie}
use libkpnet.Sctp.Threads.{thread_count, prepare_sctp_threads}
use libkpnet.Sctp.Process.{Always, after, cookie_assoc, echo_diff, sctp_process_sctp_cookie_echo}

-- The bytes behind the chunk header begin with a cookie and its tag.
abbrev pub IsSigned : Host → List ℕ → Type 0
IsSigned h body =
    take hmac_md5_key_len (drop cookie_bytes body) ≡ hmac_md5 h (take cookie_bytes body) cookie_key

take_self : (n : ℕ) (b : List ℕ) → length b ≡ n → take n b ≡ b
take_self zero [] e = refl
take_self zero (x ∷ b) e = absurd (omega arith)
take_self (suc n) [] e = absurd (omega arith)
take_self (suc n) (x ∷ b) e = ap (λ t. x ∷ t) (take_self n b (omega arith))

module _ (h : Host) (v : IsMd5 h) (body : List ℕ) where
  pub echo_diff-zero : 56 ≤ length body → echo_diff h body ≡ 0 → IsSigned h body
  unfolding echo_diff
  echo_diff-zero long e =
      let digest = hmac_md5 h (take cookie_bytes body) cookie_key in
      let len = length-hmac_md5 h (take cookie_bytes body) cookie_key v in
      let (_, same) =
        tag_diff-zero 16 digest (drop cookie_bytes body) 0 (omega (arith, len))
          (omega (arith, length-drop cookie_bytes body)) e in
      sym same ∙ take_self 16 digest len

  pub echo_diff-signed : IsSigned h body → echo_diff h body ≡ 0
  unfolding echo_diff
  echo_diff-signed e =
      let digest = hmac_md5 h (take cookie_bytes body) cookie_key in
      sym (tag_diff-take 16 digest (drop cookie_bytes body) 0)
      ∙ ap (λ t. tag_diff 16 digest t 0) e
      ∙ tag_diff-same 16 digest

-- The peer's state is that of a cookie, and the timers are reset.
abbrev pub Restored : Cookie → Assoc → Type 0
Restored c a =
    (a.ver_tag ≡ c.ver_tag)
    × (a.init_tag ≡ c.init_tag)
    × (a.a_rwnd ≡ c.a_rwnd)
    × (a.os ≡ c.os)
    × (a.mis ≡ c.mis)
    × (a.tsn ≡ c.tsn)
    × (a.dst_tsn ≡ c.dst_tsn)
    × (a.dst_ip ≡ c.src_ip)
    × (a.dst_port ≡ c.src_port)
    × (a.rto ≡ 1000)
    × (a.srtt ≡ 0)
    × (a.rttvar ≡ 0)

-- What the caller may conclude from the result.
abbrev pub Authentic : Host → Assoc → Net → List ℕ → (plen : ℕ) → Bool × Assoc × Net → Type 0
Authentic h a net packet plen (false, a', net') = (a' ≡ a) × (net' ≡ net)
Authentic h a net packet plen (true, a', net') =
    (60 ≤ bswap16 plen)
    × IsSigned h (drop fld_bytes packet)
    × Restored (cookie_at (drop fld_bytes packet)) a'

pub Restored-threads :
    (array : Bool) (room : ℕ) (c : Cookie) (a : Assoc)
    → Restored c a
    → Restored c (prepare_sctp_threads array room a).1
unfolding prepare_sctp_threads
Restored-threads false room c a r = r
Restored-threads true room c a r = elim (Bool-cases (ltb room (thread_count a))) [
  | inl e ↦ rw e r
  | inr e ↦ rw e r
]

pub Restored-cookie_assoc : (c : Cookie) (a : Assoc) → Restored c (cookie_assoc a c)
unfolding cookie_assoc
Restored-cookie_assoc c a = (refl, refl, refl, refl, refl, refl, refl, refl, refl, refl, refl, refl)

after-Authentic :
    (h : Host) (a : Assoc) (net : Net) (packet : List ℕ) (plen : ℕ) (a' : Assoc)
    (r : Option (Bool × Net))
    → Authentic h a net packet plen (true, a', net)
    → Always (Authentic h a net packet plen) (after a' r)
after-Authentic h a net packet plen a' none c = tt
after-Authentic h a net packet plen a' (some (_, _)) c = c

module _ (h : Host) (d : Draws) (a : Assoc) (net : Net) (packet : List ℕ) (plen : ℕ) where
  Always-Authentic :
      IsMd5 h
      → 60 ≤ length packet
      → Always (Authentic h a net packet plen) (sctp_process_sctp_cookie_echo h d a net packet plen)
  unfolding sctp_process_sctp_cookie_echo
  Always-Authentic v long =
      let body = drop fld_bytes packet in
      elim (Bool-cases (ltb (bswap16 plen) 60)) [
        | inl e ↦ rw e (refl, refl)
        | inr e ↦ rw e (elim (Bool-cases (echo_diff h body == 0)) [
          | inr f ↦ rw f (refl, refl)
          | inl f ↦ rw f (
              after-Authentic h a net packet plen _ _ (
                ground (arith, e),
                echo_diff-zero h v body (omega (arith, length-drop fld_bytes packet))
                    (ground (arith, f)),
                Restored-threads d.array d.room (cookie_at body) (cookie_assoc a (cookie_at body))
                    (Restored-cookie_assoc (cookie_at body) a),
              ))
        ])
      ]

  -- `sctp_process_sctp_cookie_echo` accepts no forged cookie, given that MD5 digests have 16 bytes
  -- and that 60 bytes lie behind the pointer: where it returns 0, the length was at least 60, the
  -- 16 bytes behind the cookie are its HMAC under the key, and the association is in the cookie's
  -- state; where it returns -1, the association, the rings and the buffers are as they were.
  pub cookie_echo-Authentic :
      (r : Bool × Assoc × Net)
      → IsMd5 h
      → 60 ≤ length packet
      → sctp_process_sctp_cookie_echo h d a net packet plen ≡ some r
      → Authentic h a net packet plen r
  cookie_echo-Authentic r v long e =
      subst (Always (Authentic h a net packet plen)) e (Always-Authentic v long)

pub signed :
    (h : Host) (c : Cookie) (rest : List ℕ) → IsMd5 h → IsSigned h (signed_cookie h c ++ rest)
unfolding signed_cookie
signed h c rest v =
    let text = encode_cookie c in
    let tag = hmac_md5 h text cookie_key in
    let split : (text ++ tag) ++ rest ≡ text ++ (tag ++ rest) = append_assoc text tag rest in
    ap (λ b. take 16 (drop 40 b)) split
    ∙ ap (take 16) (drop-append_left 40 text (tag ++ rest) (length-encode_cookie c))
    ∙ take-append_left 16 tag rest (length-hmac_md5 h text cookie_key v)
    ∙ ap (λ t. hmac_md5 h t cookie_key)
        (sym (ap (take 40) split ∙ take-append_left 40 text (tag ++ rest) (length-encode_cookie c)))
