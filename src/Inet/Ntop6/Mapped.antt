-- ===== src/Inet/Ntop6/Mapped.antt =====
-- `inet_ntop6` on an IPv4-mapped address, where the text ends with what `inet_ntop4` writes.
use Prim.Native.Nat.{bit_or}
use mongo_sgx_client.Base.{
  ◌*◌, ◌≢◌, drop-append, take-append, append-nil, All-append, ge→ltb, ℕ, suc, ◌+◌, ◌-◌, ◌≤◌, ◌<◌,
  ◌≡◌, refl, sym, ◌∙◌, ap, Bytes, [], ◌∷◌, ◌++◌, none, some, arith, ltb, if◌then◌else◌, done, fault,
  ◌>>=◌, length, take, drop, replicate, codes, length-append,
}
use mongo_sgx_client.Libc.{strlen}
use mongo_sgx_client.Libc.Laws.{IsText, strlen_text}
use mongo_sgx_client.Inet.Pton4.Texts.{joined, IsAddress}
use mongo_sgx_client.Inet.Ntop4
use mongo_sgx_client.Inet.Ntop4.{inet_ntop4}
use mongo_sgx_client.Inet.Ntop4.Text.{inet_ntop4_lem, length-joined_quad, joined-IsText}
use mongo_sgx_client.Inet.Ntop6.{State, tmp_size, words_of, put_quad, close, after_loop, inet_ntop6}
use mongo_sgx_client.Inet.Ntop6.Text.{Holds}
use mongo_sgx_client.Inet.Ntop6.Copy.{stored, stored_fits, close-stored}
use mongo_sgx_client.Inet.Pton6.{endp, inet_pton6}
use mongo_sgx_client.Inet.Pton6.Walk.{read_address}
use mongo_sgx_client.Inet.Pton6.Refines.{inet_pton6-read_address}
use mongo_sgx_client.Inet.Pton6.Accepts.{read_embedded}
use mongo_sgx_client.Inet.Ntop6.MappedRounds.{five, best_run-mapped, ffff, loop-mapped}

abbrev prefix : Bytes
prefix = codes "::ffff:"

-- The last round: `inet_ntop4` writes over `under`, and strlen reads on into `behind`.
put_quad-mapped :
    (src quad junk under behind : Bytes)
    → drop 12 src ≡ quad
    → IsAddress quad
    → length junk ≡ Ntop4.tmp_size
    → length under ≡ length (joined quad)
    → length (under ++ behind) ≡ 39
    → put_quad src junk (record { tmp = prefix ++ (under ++ behind); tp = 7 }) ≡ (
        strlen (joined quad ++ behind) >>= λ n.
        done (some (record { tmp = prefix ++ (joined quad ++ behind); tp = 7 + n })))
unfolding put_quad
put_quad-mapped src quad junk under behind four address local same room =
    let m = prefix ++ (under ++ behind) in
    let at : 7 + length (joined quad) ≡ length (prefix ++ under) =
      omega (arith, length-append {0} prefix under) in
    let fits : length (joined quad) < 39 = omega (arith, length-joined_quad quad address) in
    let written =
      (inet_ntop4_lem quad junk m 7 39 address local).1 fits
        (omega (arith, length-append {0} under behind)) in
    let moved : drop (7 + length (joined quad)) m ≡ behind =
      ap (λ n. drop n m) at ∙ drop-append (prefix ++ under) behind in
    rw (four, written, moved) refl

no_nul : (t : Bytes) → IsText t → strlen t ≡ fault
unfolding strlen
no_nul [] h = refl
no_nul (c ∷ t) h = ground (arith, no_nul t h.1)

-- The sixteen bytes of an IPv4-mapped address.
abbrev pub mapped_address : Bytes → Bytes
mapped_address quad = replicate 10 0 ++ 255 ∷ 255 ∷ quad

mapped_run :
    (quad before rest junk dst : Bytes) (size : ℕ)
    → IsAddress quad
    → length before ≡ 7
    → length rest ≡ 39
    → inet_ntop6 (mapped_address quad) (before ++ rest) junk dst size
      ≡ after_loop five dst size
          (put_quad (mapped_address quad) junk (record { tmp = prefix ++ rest; tp = 7 }))
unfolding inet_ntop6 words_of
mapped_run (a ∷ b ∷ c ∷ d ∷ []) (x0 ∷ x1 ∷ x2 ∷ x3 ∷ x4 ∷ x5 ∷ x6 ∷ []) rest junk dst size quad h
      k =
    let src = mapped_address (a ∷ b ∷ c ∷ d ∷ []) in
    let w6 = bit_or (a * 256) b in
    let w7 = bit_or (c * 256) d in
    rw (best_run-mapped w6 w7, loop-mapped src junk rest k x0 x1 x2 x3 x4 x5 x6 w6 w7) refl
mapped_run (a ∷ b ∷ c ∷ d ∷ []) _ rest junk dst size quad h k = absurd (omega (arith, h))
mapped_run _ before rest junk dst size quad h k = absurd (omega (arith, quad.0))

close-mapped :
    (quad behind dst : Bytes) (size tp : ℕ)
    → IsAddress quad
    → length (joined quad ++ behind) ≡ 39
    → tp ≡ 7 + length (joined quad)
    → tmp_size ≤ length dst
    → tmp_size ≤ size
    → let t = prefix ++ joined quad in
      close five dst size (record { tmp = prefix ++ (joined quad ++ behind); tp = tp })
      ≡ done (some (t ++ replicate (tmp_size - length t) 0 ++ drop tmp_size dst))
close-mapped quad behind dst size tp address room at wide fits =
    let t = prefix ++ joined quad in
    let st : State = record { tmp = prefix ++ (joined quad ++ behind); tp = tp } in
    let total : length t ≡ 7 + length (joined quad) = length-append {0} prefix (joined quad) in
    let short = length-joined_quad quad address in
    let upto : tp ≡ length t = omega arith in
    let text : IsText t =
      All-append (λ c. c ≢ 0) prefix (joined quad) (ground arith) (joined-IsText quad) in
    let holds : Holds st t = record {
      whole = omega (arith, length-append {0} prefix (joined quad ++ behind));
      at = upto;
      part = ap (λ n. take n (t ++ behind)) upto ∙ take-append t behind;
    } in
    close-stored five dst size st t text holds (omega arith)
    ∙ ap (λ x. if ltb size (length x + 1) then done none else stored dst x) (append-nil t)
    ∙ ap (λ b. if b then done none else stored dst t) (ge→ltb size (length t + 1) (omega arith))
    ∙ stored_fits dst t (omega arith) wide

read-mapped :
    (quad junk : Bytes)
    → IsAddress quad
    → length junk ≡ 4
    → inet_pton6 (prefix ++ joined quad) junk ≡ done (some (mapped_address quad))
read-mapped quad junk address local =
    let zeros : endp - suc (suc (length quad)) ≡ 10 = omega (arith, address.0) in
    inet_pton6-read_address (prefix ++ joined quad) junk local
    ∙ ap (λ x. done (read_address (b':' ∷ b':' ∷ (x ++ b':' ∷ [] ++ joined quad)))) (sym ffff)
    ∙ ap done (
        read_embedded [] (0xffff ∷ []) quad tt (omega arith, tt) address (omega arith)
        ∙ ap (λ n. some (replicate n 0 ++ 255 ∷ 255 ∷ quad)) zeros)

module _ (quad before under junk dst : Bytes) (size : ℕ) (address : IsAddress quad)
    (seven : length before ≡ 7) (same : length under ≡ length (joined quad))
    (local : length junk ≡ Ntop4.tmp_size) where
  mapped_put :
      (behind : Bytes)
      → length (under ++ behind) ≡ 39
      → inet_ntop6 (mapped_address quad) (before ++ (under ++ behind)) junk dst size
        ≡ after_loop five dst size (
            strlen (joined quad ++ behind) >>= λ n.
            done (some (record { tmp = prefix ++ (joined quad ++ behind); tp = 7 + n })))
  mapped_put behind room =
      mapped_run quad before (under ++ behind) junk dst size address seven room
      ∙ ap (after_loop five dst size) (
          put_quad-mapped (mapped_address quad) quad junk under behind refl address local same room)

  -- For an IPv4-mapped address, a `dst` of at least 46 bytes, a `size` of at least 46, and a
  -- local buffer of 46 bytes that before the call happens to hold a NUL right behind where the
  -- text goes: `inet_ntop6` stores ::ffff: and the IPv4 address in decimal, filled up with NULs
  -- to 46 bytes, and `inet_pton6` reads the sixteen bytes back from the text.
  pub inet_pton6-inet_ntop6_mapped :
      (rest junk4 : Bytes)
      → length (under ++ 0 ∷ rest) ≡ 39
      → tmp_size ≤ length dst
      → tmp_size ≤ size
      → length junk4 ≡ 4
      → let t = codes "::ffff:" ++ joined quad in
        (inet_ntop6 (mapped_address quad) (before ++ (under ++ 0 ∷ rest)) junk dst size
          ≡ done (some (t ++ replicate (tmp_size - length t) 0 ++ drop tmp_size dst)))
        × (inet_pton6 t junk4 ≡ done (some (mapped_address quad)))
  inet_pton6-inet_ntop6_mapped rest junk4 room wide fits local4 = (
    mapped_put (0 ∷ rest) room
        ∙ ap
            (λ r. after_loop five dst size (
              r >>= λ n.
              done (some (record { tmp = prefix ++ (joined quad ++ 0 ∷ rest); tp = 7 + n }))))
            (strlen_text (joined quad) rest (joined-IsText quad))
        ∙ close-mapped quad (0 ∷ rest) dst size _ address
            (omega (
              arith,
              length-append {0} under (0 ∷ rest),
              length-append {0} (joined quad) (0 ∷ rest),
            ))
            refl wide fits,
    read-mapped quad junk4 address local4,
  )

  -- For an IPv4-mapped address, if the local buffer of 46 bytes before the call holds no NUL
  -- behind where the text goes, `inet_ntop6` reads past the end of that buffer: `inet_ntop4` has
  -- stored no NUL there, and strlen looks for one.
  pub inet_ntop6-mapped_fault :
      (behind : Bytes)
      → length (under ++ behind) ≡ 39
      → IsText behind
      → inet_ntop6 (mapped_address quad) (before ++ (under ++ behind)) junk dst size ≡ fault
  inet_ntop6-mapped_fault behind room dirty =
      mapped_put behind room
      ∙ ap
          (λ r. after_loop five dst size (
            r >>= λ n.
            done (some (record { tmp = prefix ++ (joined quad ++ behind); tp = 7 + n }))))
          (no_nul (joined quad ++ behind)
            (All-append (λ c. c ≢ 0) (joined quad) behind (joined-IsText quad) dirty))
