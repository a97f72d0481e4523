-- ===== src/Shared/Outcome.antt =====
-- Python exceptions as values. A pure function that may raise returns a `Result`; a method that
-- mutates its object and may raise is an `Exec`, whose state comes back beside an exception too.
use Prim.Native.String.{String}
use mathlib.Core.Path.{◌≡◌, refl}
use mathlib.Core.Logic.{◌⊎◌, inl, inr}
use mathlib.Core.Bool.{Bool, true, false}

-- `ProfilingRejection` of src/edgeshard/protocol/profiling/mapper.py, which `SessionRefused` carries.
pub data ProfilingRejection : Type 0 where
  unknown_session stale_session session_closed : ProfilingRejection
  session_kind_mismatch device_busy unknown_case : ProfilingRejection

-- The status of a failed RPC, as far as the code looks at it.
pub data StatusCode : Type 0 where
  invalid_argument other_status : StatusCode

-- The exceptions that the modelled code raises, with what their handlers read. Message texts are
-- not modelled.
pub data Exception : Type 0 where
  value_error key_error control_protocol_error session_error : Exception
  pipeline_error protocol_error sequencing_error callback_error : Exception
  worker_agent_error master_unavailable session_invalid superseded : Exception
  os_error other_error cancelled_error runtime_error : Exception
  aio_rpc_error abort_error : StatusCode → Exception
  -- The text is the category.
  profiling_error : String → Exception
  device_busy_error : String → Exception
  session_refused : ProfilingRejection → Exception

pub data Result {ℓ} (A : Type ℓ) : Type ℓ where
  ok : A → Result A
  err : Exception → Result A

abbrev pub is_ok {ℓ} : {A : Type ℓ} → Result A → Bool
is_ok (ok value) = true
is_ok (err x) = false

-- The next statement runs on the value, unless an exception was raised.
module _ {ℓ κ} {A : Type ℓ} {B : Type κ} where
  infixl 5 ◌>>=◌
  abbrev pub ◌>>=◌ : Result A → (A → Result B) → Result B
  ok value >>= next = next value
  err x >>= next = err x

-- What a validation returns: nothing, or the exception that it raises.
abbrev pub Checked : Type 0
Checked = Result (Unit {0})

-- `if test: raise x`
abbrev pub raise_if : Bool → Exception → Checked
raise_if test x = elim test [ true ↦ err x | false ↦ ok tt ]

module _ {ℓ} {B : Type ℓ} where
  infixl 5 ◌>>◌
  abbrev pub ◌>>◌ : Checked → Result B → Result B
  checked >> rest = checked >>= (λ u. rest)

pub Result-cases {ℓ} :
    {A : Type ℓ} (r : Result A) → ((a : A) × (r ≡ ok a)) ⊎ ((e : Exception) × (r ≡ err e))
Result-cases (ok a) = inl (a, refl)
Result-cases (err e) = inr (e, refl)

pub Checked-cases : (r : Checked) → (r ≡ ok tt) ⊎ ((e : Exception) × (r ≡ err e))
Checked-cases (ok tt) = inl refl
Checked-cases (err e) = inr (e, refl)
