-- ===== src/Inet/Ntop6/Shape.antt =====
-- The text of `inet_ntop6` is one that `inet_pton6` is known to read.
use mongo_sgx_client.Base.{
  ℕ, zero, suc, ◌+◌, ◌<◌, ◌≤◌, ◌≡◌, refl, sym, ◌∙◌, ap, ap₂, Bytes, List, [], ◌∷◌, ◌++◌, append-nil,
  append_assoc, none, some, arith, length, replicate,
}
use mongo_sgx_client.Inet.Digits.{format}
use mongo_sgx_client.Inet.Pton6.Groups.{groups}
use mongo_sgx_client.Inet.Pton6.Gaps.{with_gap}
use mongo_sgx_client.Inet.Ntop6.{Zeros}
use mongo_sgx_client.Inet.Ntop6.Text.{body, piece, presentation, colon_before, trailing_colon}

-- Words in hexadecimal, with a colon in front of each.
abbrev colon_words : List ℕ → Bytes
colon_words [] = []
colon_words (w ∷ r) = b':' ∷ format 16 w ++ colon_words r

groups-colon_words : (w : ℕ) (r : List ℕ) → groups (w ∷ r) ≡ format 16 w ++ colon_words r
groups-colon_words w [] = sym (append-nil (format 16 w))
groups-colon_words w (x ∷ r) = ap (λ t. format 16 w ++ b':' ∷ t) (groups-colon_words x r)

abbrev pub run_at : ℕ → ℕ → Zeros
run_at b len = record { base = some b; len = len }

abbrev pub no_run : ℕ → Zeros
no_run len = record { base = none; len = len }

-- Words behind the first, where no run is.
body_none : (len i : ℕ) (ws : List ℕ) → 0 < i → body (no_run len) i ws ≡ colon_words ws
body_none len i [] h = refl
body_none len i (w ∷ r) h = ground (arith, body_none len (i + 1) r)

body_after :
    (b len i : ℕ) (ws : List ℕ) → 0 < i → b + len ≤ i → body (run_at b len) i ws ≡ colon_words ws
body_after b len i [] h k = refl
body_after b len i (w ∷ r) h k = ground (arith, body_after b len (i + 1) r)

-- Words in front of the run.
abbrev front : ℕ → List ℕ → Bytes
front i [] = []
front i (w ∷ r) = colon_before i ++ format 16 w ++ front (i + 1) r

front_later : (i : ℕ) (hs : List ℕ) → 0 < i → front i hs ≡ colon_words hs
front_later i [] h = refl
front_later i (w ∷ r) h = ground (arith, front_later (i + 1) r)

front-groups : (hs : List ℕ) → front 0 hs ≡ groups hs
front-groups [] = refl
front-groups (w ∷ r) =
    ap (λ t. format 16 w ++ t) (front_later 1 r (omega arith)) ∙ sym (groups-colon_words w r)

body_before :
    (b len i j : ℕ) (hs r : List ℕ)
    → i + length hs ≡ j
    → j ≤ b
    → body (run_at b len) i (hs ++ r) ≡ front i hs ++ body (run_at b len) j r
body_before b len i j [] r e h =
    let same : i ≡ j = omega arith in ap (λ n. body (run_at b len) n r) same
body_before b len i j (w ∷ hs) r e h =
    let best = run_at b len in
    let word : Bytes = colon_before i ++ format 16 w in
    let here : piece best i w ≡ word = ground arith in
    ap (λ t. t ++ body best (i + 1) (hs ++ r)) here
    ∙ ap (λ t. word ++ t) (body_before b len (i + 1) j hs r (omega arith) h)
    ∙ sym (append_assoc word (front (i + 1) hs) (body best j r))

-- The run itself.
body_inside :
    (b len i n j : ℕ) (r : List ℕ)
    → b < i
    → i + n ≡ j
    → j ≤ b + len
    → body (run_at b len) i (replicate n 0 ++ r) ≡ body (run_at b len) j r
body_inside b len i zero j r h e k =
    let same : i ≡ j = omega arith in ap (λ n. body (run_at b len) n r) same
body_inside b len i (suc n) j r h e k = ground (arith, body_inside b len (i + 1) n j r)

body_run :
    (b len : ℕ) (r : List ℕ)
    → 0 < len
    → body (run_at b len) b (replicate len 0 ++ r) ≡ b':' ∷ body (run_at b len) (b + len) r
body_run b zero r h = absurd (omega arith)
body_run b (suc n) r h =
    let first : piece (run_at b (suc n)) b 0 ≡ b':' ∷ [] = ground arith in
    ap (λ t. t ++ body (run_at b (suc n)) (b + 1) (replicate n 0 ++ r)) first
    ∙ ap (λ t. b':' ∷ t)
        (body_inside b (suc n) (b + 1) n (b + suc n) r (omega arith) (omega arith) (omega arith))

-- The two colons, and the words behind them.
behind_run :
    (b len : ℕ) (ts : List ℕ)
    → b + len + length ts ≡ 8
    → 0 < len
    → body (run_at b len) (b + len) ts ++ trailing_colon (run_at b len) ≡ b':' ∷ groups ts
behind_run b len [] e h = ground arith
behind_run b len (w ∷ r) e h =
    let more : trailing_colon (run_at b len) ≡ [] = ground arith in
    ap (λ t. body (run_at b len) (b + len) (w ∷ r) ++ t) more
    ∙ append-nil (body (run_at b len) (b + len) (w ∷ r))
    ∙ body_after b len (b + len) (w ∷ r) (omega arith) (omega arith)
    ∙ ap (λ t. b':' ∷ t) (sym (groups-colon_words w r))

-- A run becomes ::,
pub presentation_run :
    (len : ℕ) (hs ts : List ℕ)
    → 0 < len
    → length hs + len + length ts ≡ 8
    → presentation (run_at (length hs) len) (hs ++ (replicate len 0 ++ ts))
      ≡ with_gap hs (groups ts)
presentation_run len hs ts h e =
    let b = length hs in
    let best = run_at b len in
    let tail = trailing_colon best in
    let rest = body best (b + len) ts in
    ap (λ t. t ++ tail)
      (body_before b len 0 b hs (replicate len 0 ++ ts) (omega arith) (omega arith)
        ∙ ap₂ (λ x y. x ++ y) (front-groups hs) (body_run b len ts h))
    ∙ append_assoc (groups hs) (b':' ∷ rest) tail
    ∙ ap (λ t. groups hs ++ b':' ∷ t) (behind_run b len ts e h)

-- and with no run the text is all the words.
pub presentation_none : (len : ℕ) (ws : List ℕ) → presentation (no_run len) ws ≡ groups ws
presentation_none len [] = refl
presentation_none len (w ∷ r) =
    append-nil (format 16 w ++ body (no_run len) 1 r)
    ∙ ap (λ t. format 16 w ++ t) (body_none len 1 r (omega arith))
    ∙ sym (groups-colon_words w r)
