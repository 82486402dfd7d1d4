-- ===== src/Inet/Pton6/Gaps.antt =====
-- Texts of words, with or without ::, read without a buffer.
use mongo_sgx_client.Base.{
  ℕ, ◌+◌, ◌-◌, ◌*◌, ◌<◌, ◌≤◌, ◌≡◌, sym, ◌∙◌, ap, Bytes, [], ◌∷◌, ◌++◌, append-nil, append_assoc,
  List, none, some, arith, length, All, length-append, take, drop, replicate, take-append,
  drop-append, ap₂,
}
use mongo_sgx_client.Inet.Digits.{format, format-AllIsDigit, IsDigit}
use mongo_sgx_client.Inet.Pton6.{endp, skip_colon}
use mongo_sgx_client.Inet.Pton6.Walk.{walk, start, read_address, after_loop}
use mongo_sgx_client.Inet.Pton6.Refines.{filled_length}
use mongo_sgx_client.Inet.Pton6.Groups.{
  groups, colons, words_bytes, AreWords, view, walk-colons, walk-groups, read_gap, ending,
  format_some, walk-go, length-words_bytes,
}

-- The text of a word begins with something else than a colon.
skip_text :
    (t rest : Bytes) → All IsDigit t → 0 < length t → skip_colon (t ++ rest) ≡ some (t ++ rest)
unfolding skip_colon
skip_text [] rest h k = absurd (omega arith)
skip_text (c ∷ t) rest h k = ground (arith, h.0)

skip_format :
    (w : ℕ) (rest : Bytes)
    → w < 65536
    → skip_colon (format 16 w ++ rest) ≡ some (format 16 w ++ rest)
skip_format w rest h = skip_text (format 16 w) rest (format-AllIsDigit 16 w) (format_some w h)

skip_groups : (w : ℕ) (r : List ℕ) → w < 65536 → skip_colon (groups (w ∷ r)) ≡ some (groups (w ∷ r))
skip_groups w [] h =
    ap skip_colon (sym (append-nil (format 16 w)))
    ∙ skip_format w [] h
    ∙ ap some (append-nil (format 16 w))
skip_groups w (x ∷ r) h = skip_format w (b':' ∷ groups (x ∷ r)) h

-- Where the text does not begin with a colon, the walk starts at its first byte.
read_plain :
    (text : Bytes)
    → skip_colon text ≡ some text
    → read_address text ≡ after_loop (walk text (start text))
unfolding read_address
read_plain text e = rw (e, read_address)

-- Eight words with colons between them.
pub read_full :
    (ws : List ℕ) → AreWords ws → length ws ≡ 8 → read_address (groups ws) ≡ some (words_bytes ws)
read_full [] h e = absurd (omega arith)
read_full (w ∷ r) h e =
    read_plain (groups (w ∷ r)) (skip_groups w r h.0)
    ∙ walk-groups (w ∷ r) [] none h (omega arith)
    ∙ whole (words_bytes (w ∷ r)) (omega (arith, length-words_bytes (w ∷ r)))
  where
    whole : (b : Bytes) → length b ≡ endp → ending none b ≡ some b
    whole b k = ground arith

-- Words, ::, and more text.
abbrev pub with_gap : List ℕ → Bytes → Bytes
with_gap hs tail = groups hs ++ b':' ∷ b':' ∷ tail

groups-colons :
    (w : ℕ) (r : List ℕ) (tail : Bytes) → with_gap (w ∷ r) tail ≡ colons (w ∷ r) ++ b':' ∷ tail
groups-colons w [] tail = sym (append_assoc (format 16 w) (b':' ∷ []) (b':' ∷ tail))
groups-colons w (x ∷ r) tail =
    append_assoc (format 16 w) (b':' ∷ groups (x ∷ r)) (b':' ∷ b':' ∷ tail)
    ∙ ap (λ t. format 16 w ++ b':' ∷ t) (groups-colons x r tail)
    ∙ sym (append_assoc (format 16 w) (b':' ∷ colons (x ∷ r)) (b':' ∷ tail))

-- Up to the ::, the words are stored and its place is kept.
skip_colons :
    (w : ℕ) (r : List ℕ) (rest : Bytes)
    → w < 65536
    → skip_colon (colons (w ∷ r) ++ rest) ≡ some (colons (w ∷ r) ++ rest)
skip_colons w r rest h =
    rw (append_assoc (format 16 w) (b':' ∷ colons r) rest)
      (skip_format w (b':' ∷ colons r ++ rest) h)

pub read_with_gap :
    (hs : List ℕ) (tail : Bytes)
    → AreWords hs
    → 2 * length hs ≤ endp
    → read_address (with_gap hs tail)
      ≡ after_loop (walk tail (view (words_bytes hs) (some (length (words_bytes hs))) tail 0 0))
read_with_gap [] tail h l =
    unfold read_address skip_colon in
    ap after_loop
      (walk-go b':' tail (view [] none (b':' ∷ tail) 0 0) (read_gap tail [] (b':' ∷ tail)))
read_with_gap (w ∷ r) tail h l =
    let bytes = words_bytes (w ∷ r) in
    ap read_address (groups-colons w r tail)
    ∙ read_plain (colons (w ∷ r) ++ b':' ∷ tail) (skip_colons w r (b':' ∷ tail) h.0)
    ∙ ap after_loop (
        walk-colons (w ∷ r) (b':' ∷ tail) [] none h (cc) (omega arith)
        ∙ walk-go b':' tail (view bytes none (b':' ∷ tail) 0 0) (read_gap tail bytes (b':' ∷ tail)))

-- Zeros between two parts make up sixteen bytes.
abbrev pub filled : Bytes → Bytes → Bytes
filled front back = front ++ replicate (endp - length (front ++ back)) 0 ++ back

pub ending-filled :
    (front back : Bytes)
    → length (front ++ back) < endp
    → ending (some (length front)) (front ++ back) ≡ some (filled front back)
ending-filled front back h =
    let out = front ++ back in
    let c = length front in
    let n = endp - length out in
    let same : take c out ++ replicate n 0 ++ drop c out ≡ filled front back =
      ap₂ (λ x y. x ++ replicate n 0 ++ y) (take-append front back) (drop-append front back) in
    let size : length (filled front back) ≡ endp =
      ap length (sym same)
      ∙ filled_length c out (omega (arith, length-append {0} front back)) (omega arith) in
    ground (arith, same, size)

-- The zeros that :: stands for are put in.
pub read_compressed :
    (hs ts : List ℕ)
    → AreWords hs
    → AreWords ts
    → length hs + length ts < 8
    → read_address (with_gap hs (groups ts)) ≡ some (filled (words_bytes hs) (words_bytes ts))
read_compressed hs ts h k l =
    let front = words_bytes hs in
    let back = words_bytes ts in
    read_with_gap hs (groups ts) h (omega arith)
    ∙ walk-groups ts front (some (length front)) k (omega (arith, length-words_bytes hs))
    ∙ ending-filled front back
        (omega (arith, length-append {0} front back, length-words_bytes hs, length-words_bytes ts))
