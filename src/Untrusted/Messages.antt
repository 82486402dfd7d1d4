-- ===== src/Untrusted/Messages.antt =====
-- `print_error_message` of untrusted/sample.cpp.
use mongo_sgx_client.Base.{
  ℕ, ◌==◌, true, false, Bytes, List, [], ◌∷◌, ◌++◌, Option, none, some, codes,
}

-- The constants of sgx_error.h that the table names.
pub data SgxError : Type 0 where
  error_unexpected error_invalid_parameter error_out_of_memory error_enclave_lost
        error_invalid_enclave error_invalid_enclave_id error_invalid_signature error_out_of_epc
        error_no_device error_memory_map_conflict error_invalid_metadata error_device_busy
        error_invalid_version error_invalid_attribute error_enclave_file_access :
      SgxError

pub record Errlist : Type 0 where
  pub err : SgxError
  pub msg : Bytes
  pub sug : Option Bytes

abbrev plain : SgxError → Bytes → Errlist
plain err msg = record { err = err; msg = msg; sug = none }

abbrev pub sgx_errlist : List Errlist
sgx_errlist =
    plain error_unexpected (codes "Unexpected error occurred.")
    ∷ plain error_invalid_parameter (codes "Invalid parameter.")
    ∷ plain error_out_of_memory (codes "Out of memory.")
    ∷ record {
      err = error_enclave_lost;
      msg = codes "Power transition occurred.";
      sug = some (codes "Please refer to the sample \"PowerTransition\" for details.");
    }
    ∷ plain error_invalid_enclave (codes "Invalid enclave image.")
    ∷ plain error_invalid_enclave_id (codes "Invalid enclave identification.")
    ∷ plain error_invalid_signature (codes "Invalid enclave signature.")
    ∷ plain error_out_of_epc (codes "Out of EPC memory.")
    ∷ record {
      err = error_no_device;
      msg = codes "Invalid Intel(R) SGX device.";
      sug = some (
          codes
            "Please make sure Intel(R) SGX module is enabled in the BIOS, and install Intel(R) SGX driver afterwards.");
    }
    ∷ plain error_memory_map_conflict (codes "Memory map conflicted.")
    ∷ plain error_invalid_metadata (codes "Invalid enclave metadata.")
    ∷ plain error_device_busy (codes "Intel(R) SGX device was busy.")
    ∷ plain error_invalid_version (codes "Enclave version was invalid.")
    ∷ plain error_invalid_attribute (codes "Enclave was not authorized.")
    ∷ plain error_enclave_file_access (codes "Can't open enclave file.")
    ∷ []

-- A printed line.
pub data Line : Type 0 where
  info : Bytes → Line
  error : Bytes → Line
  error_code : ℕ → Line

abbrev pub suggestion : Option Bytes → List Line
suggestion none = []
suggestion (some sug) = info sug ∷ []

-- The loop over the table, and the message behind it. `code` gives the constants.
module _ (code : SgxError → ℕ) where
  unfoldable pub messages : ℕ → List Errlist → List Line
  messages ret [] = error_code ret ∷ []
  messages ret (e ∷ es) = elim (ret == code e.err) [
    | true ↦ suggestion e.sug ++ error e.msg ∷ []
    | false ↦ messages ret es
  ]

  unfoldable pub print_error_message : ℕ → List Line
  print_error_message ret = messages ret sgx_errlist
