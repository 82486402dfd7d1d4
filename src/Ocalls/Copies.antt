-- ===== src/Ocalls/Copies.antt =====
-- What the wrappers let the host read and write.
use mongo_sgx_client.Base.{
  ℕ, ◌+◌, ◌≤◌, ◌≡◌, refl, sym, ◌∙◌, ap, Bytes, List, [], ◌∷◌, ◌++◌, arith, ◌==◌, if◌then◌else◌,
  done, length, take, drop, le→leb, take-all, All,
}
use mongo_sgx_client.Base.Integers.{ℤ}
use mongo_sgx_client.Libc.{write}
use mongo_sgx_client.Libc.Laws.{write_fits}
use mongo_sgx_client.Ocalls.{
  returns, aborts, Reply, sgx_success, unless_failed, OptionMemory, Iovec, Msghdr, Host, copy_of,
  getsockopt, copy_iov, native_message, sendmsg,
}

copy_of_fits : (src : Bytes) (n : ℕ) → n ≤ length src → copy_of src n ≡ done (take n src)
unfolding copy_of
copy_of_fits src n h = rw (le→leb n (length src) h)

-- What the host is asked, for a buffer and its length.
abbrev pub asked : Host → ℕ → ℕ → ℕ → Bytes → ℕ → Reply (ℤ × OptionMemory)
asked host socket level option_name value len =
    host.ocall_getsockopt socket level option_name
      (record { option_value = take len value; option_len = len })

-- If the caller's buffer has the length that it says, and the host's answer leaves as much memory as
-- it was given, `getsockopt` makes no access outside of a buffer. If the call out of the enclave
-- fails, the enclave ends. Otherwise the host's bytes replace the beginning of the buffer up to the
-- length that the caller gave, and nothing behind it, whatever length the host answers; that length
-- is handed to the caller unchecked.
pub getsockopt_lem :
    (host : Host) (socket level option_name : ℕ) (value : Bytes) (len : ℕ)
    → len ≤ length value
    → length (asked host socket level option_name value len).answer.1.option_value ≡ len
    → let r = asked host socket level option_name value len in
      getsockopt host socket level option_name value len ≡ (
        if r.status == sgx_success
        then done
            (returns (r.answer.0, r.answer.1.option_value ++ drop len value, r.answer.1.option_len))
        else done aborts)
unfolding getsockopt unless_failed
getsockopt_lem host socket level option_name value len room kept =
    let r = asked host socket level option_name value len in
    let bytes = r.answer.1.option_value in
    let size : 0 + length bytes ≡ len = omega arith in
    let back : copy_of bytes len ≡ done bytes =
      copy_of_fits bytes len (omega arith) ∙ ap done (take-all len bytes (omega arith)) in
    let stored : write value 0 bytes ≡ done (bytes ++ drop len value) =
      write_fits value bytes 0 (omega arith) ∙ ap (λ n. done (bytes ++ drop n value)) size in
    ground (arith, copy_of_fits value len room, back, stored)

-- An entry of `msg_iov` whose memory has the length that it says.
abbrev pub IsIovec : Iovec → Type 0
IsIovec v = length v.iov_base ≡ v.iov_len

copy_whole : (v : Iovec) → IsIovec v → copy_of v.iov_base v.iov_len ≡ done v.iov_base
copy_whole v h =
    copy_of_fits v.iov_base v.iov_len (omega arith)
    ∙ ap done (take-all v.iov_len v.iov_base (omega arith))

copy_iov-same : (iov : List Iovec) → All IsIovec iov → copy_iov (length iov) iov ≡ done iov
unfolding copy_iov
copy_iov-same [] h = refl
copy_iov-same (v ∷ iov) h = ground (arith, copy_whole v h.0, copy_iov-same iov h.1)

-- If every part of a message has the length that it says, `sendmsg` makes no access outside of a
-- buffer and hands the host the same message, all bytes of all parts in their order, but for the name:
-- in its place stands what the fresh memory happens to hold. If the call out of the enclave fails, the
-- enclave ends; otherwise `sendmsg` returns what the host answers.
pub sendmsg_lem :
    (host : Host) (socket flags : ℕ) (message : Msghdr) (name : Bytes)
    → length message.msg_control ≡ message.msg_controllen
    → length message.msg_iov ≡ message.msg_iovlen
    → All IsIovec message.msg_iov
    → let r = host.ocall_sendmsg socket (record message { msg_name = name }) flags in
      sendmsg host socket message flags name
      ≡ (if r.status == sgx_success then done (returns r.answer) else done aborts)
unfolding sendmsg native_message unless_failed
sendmsg_lem host socket flags message name control count parts =
    let copied : copy_of message.msg_control message.msg_controllen ≡ done message.msg_control =
      copy_of_fits message.msg_control message.msg_controllen (omega arith)
      ∙ ap done (take-all message.msg_controllen message.msg_control (omega arith)) in
    let vectors : copy_iov message.msg_iovlen message.msg_iov ≡ done message.msg_iov =
      ap (λ n. copy_iov n message.msg_iov) (sym count) ∙ copy_iov-same message.msg_iov parts in
    rw (copied, vectors) refl
