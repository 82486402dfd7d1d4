-- ===== src/Inet/Pton6/Texts.antt =====
-- The three shapes of text that `inet_pton6` is documented to read, and the bytes that it stores.
use mongo_sgx_client.Base.{ℕ, ◌+◌, ◌<◌, ◌≡◌, ◌∙◌, ap, Bytes, List, ◌++◌, some, done, length}
use mongo_sgx_client.Inet.Pton4.Texts.{joined, IsAddress}
use mongo_sgx_client.Inet.Pton6.{inet_pton6}
use mongo_sgx_client.Inet.Pton6.Refines.{inet_pton6-read_address}
use mongo_sgx_client.Inet.Pton6.Groups.{groups, colons, words_bytes, AreWords}
use mongo_sgx_client.Inet.Pton6.Gaps.{with_gap, filled, read_full, read_compressed}
use mongo_sgx_client.Inet.Pton6.Accepts.{read_embedded}

module _ (junk : Bytes) (local : length junk ≡ 4) where
  -- Eight 16-bit words in hexadecimal with colons between them are read as their sixteen bytes,
  -- high byte first, whatever a local buffer of four bytes held before the call.
  pub inet_pton6-groups :
      (ws : List ℕ)
      → AreWords ws
      → length ws ≡ 8
      → inet_pton6 (groups ws) junk ≡ done (some (words_bytes ws))
  inet_pton6-groups ws h e =
      inet_pton6-read_address (groups ws) junk local ∙ ap done (read_full ws h e)

  -- Fewer than eight 16-bit words with one :: among them, also at either end, are read as the bytes
  -- of the words in front of it, zeros up to sixteen bytes in all, and the bytes of the words behind.
  pub inet_pton6-with_gap :
      (hs ts : List ℕ)
      → AreWords hs
      → AreWords ts
      → length hs + length ts < 8
      → inet_pton6 (with_gap hs (groups ts)) junk
        ≡ done (some (filled (words_bytes hs) (words_bytes ts)))
  inet_pton6-with_gap hs ts h k l =
      inet_pton6-read_address (with_gap hs (groups ts)) junk local
      ∙ ap done (read_compressed hs ts h k l)

  -- The same with an IPv4 address in decimal at the end, behind at most five words in all: its four
  -- bytes stand at the end.
  pub inet_pton6-embedded :
      (hs ts : List ℕ) (quad : Bytes)
      → AreWords hs
      → AreWords ts
      → IsAddress quad
      → length hs + length ts < 6
      → inet_pton6 (with_gap hs (colons ts ++ joined quad)) junk
        ≡ done (some (filled (words_bytes hs) (words_bytes ts ++ quad)))
  inet_pton6-embedded hs ts quad h k q l =
      inet_pton6-read_address (with_gap hs (colons ts ++ joined quad)) junk local
      ∙ ap done (read_embedded hs ts quad h k q l)
