-- ===== src/Errors/Slices.antt =====
-- lib/CppInterOp/ErrorInternal.h and ErrorInternal.cpp: the slices that carry an error's
-- diagnostics, the counts on them, and the accessors.
use cpp_inter_op.Common.{
  ◌≡◌, ℕ, ◌+◌, ◌-◌, ◌%◌, ◌^◌, List, [], ◌∷◌, map, Option, none, some, ◌==◌, if◌then◌else◌, Str,
  is_empty,
}
use cpp_inter_op.Errors.Encoding.{
  Status, ok, DiagnosticSeverity, Address, ErrorRef, is_ok, is_inline, is_slice, inline_status,
  slice,
}

pub record StoredDiagView : Type 0 where
  pub message : Str
  pub file : Str
  pub line : ℕ
  pub column : ℕ
  pub sev : DiagnosticSeverity

-- A `const char*` to static storage: `none` is the null pointer.
pub record ErrorSlice : Type 0 where
  pub refcount : ℕ
  pub owner : Address
  pub code : Status
  pub diagnostics : List StoredDiagView
  pub producer : Option Str
  pub producer_signature : Option Str

-- The live slices by address, and the diagnostics that wait at each interpreter
-- (InterpreterInfo::StoredDiags).
pub record World : Type 0 where
  pub slices : Address → Option ErrorSlice
  pub stored_diags : Address → List StoredDiagView

-- `fault` is a use of a slice that is not alive or of a value that was never made; `abort` is a
-- deliberate std::abort.
pub data Run {ℓ} (A : Type ℓ) : Type ℓ where
  done : A → World → Run A
  fault abort : Run A

abbrev pub M {ℓ} : Type ℓ → Type ℓ
M A = World → Run A

infixl 5 ◌>>=◌ ◌>>◌
abbrev pub ◌>>=◌ {ℓ κ} : {A : Type ℓ} {B : Type κ} → M A → (A → M B) → M B
◌>>=◌ m f w = elim (m w) [ done a w' ↦ f a w' | fault ↦ fault | abort ↦ abort ]

abbrev pub ◌>>◌ {ℓ κ} : {A : Type ℓ} {B : Type κ} → M A → M B → M B
m >> k = m >>= λ _. k

abbrev pub pure {ℓ} : {A : Type ℓ} → A → M A
pure a w = done a w

abbrev pub update {ℓ} : {A : Type ℓ} → (ℕ → A) → ℕ → A → ℕ → A
update f a v b = if a == b then v else f b

unfoldable pub load : Address → M ErrorSlice
load a w = elim (w.slices a) [ none ↦ fault | some s ↦ done s w ]

unfoldable pub store : Address → Option ErrorSlice → M (Unit {0})
store a s w = done tt (record w { slices = update w.slices a s })

-- `Refcount.fetch_add(1)` and `Refcount.fetch_sub(1)` return the old count; the count wraps.
unfoldable pub fetch_add : Address → M ℕ
unfolding load store
fetch_add a = do
  s ← load a
  store a (some (record s { refcount = (s.refcount + 1) % 2 ^ 32 }))
  pure s.refcount

unfoldable pub fetch_sub : Address → M ℕ
unfolding load store
fetch_sub a = do
  s ← load a
  store a (some (record s { refcount = (s.refcount + 2 ^ 32 - 1) % 2 ^ 32 }))
  pure s.refcount

unfoldable pub retain_error_ref : ErrorRef → M (Unit {0})
unfolding fetch_add is_slice
retain_error_ref e = if is_slice e then (do fetch_add e.bits; pure tt) else pure tt

unfoldable pub release_error_ref : ErrorRef → M (Unit {0})
unfolding fetch_sub is_slice store
release_error_ref e =
    if is_slice e
    then (do old ← fetch_sub e.bits; if old == 1 then store e.bits none else pure tt)
    else pure tt

-- `new ErrorSlice()`: the address is the allocator's choice.
unfoldable pub alloc_slice : Address → Address → M Address
unfolding store
alloc_slice new owner = do
  store new (
      some (record {
        refcount = 0;
        owner = owner;
        code = ok;
        diagnostics = [];
        producer = none;
        producer_signature = none;
      }))
  pure new

unfoldable pub get_status : ErrorRef → M Status
unfolding is_ok is_inline inline_status slice load
get_status e =
    if is_ok e
    then pure ok
    else if is_inline e
    then pure (inline_status e)
    else elim (slice e) [ none ↦ pure ok | some a ↦ (do s ← load a; pure s.code) ]

-- A handle to one captured diagnostic: null, or the place where it lies.
pub data DiagnosticRef : Type 0 where
  null : DiagnosticRef
  in_slice : Address → ℕ → DiagnosticRef
  pending : Address → ℕ → DiagnosticRef

indexed {ℓ} : {A : Type ℓ} → (ℕ → A) → ℕ → List StoredDiagView → List A
indexed f i [] = []
indexed f i (d ∷ ds) = f i ∷ indexed f (i + 1) ds

-- The view over the thread's buffer, as the references it holds until the next call.
unfoldable pub get_diagnostics : ErrorRef → M (List DiagnosticRef)
unfolding slice load indexed
get_diagnostics e = elim (slice e) [
  | none ↦ pure []
  | some a ↦ (do
    s ← load a
    if is_empty s.diagnostics then pure [] else pure (indexed (in_slice a) 0 s.diagnostics))
]

unfoldable pub producer : ErrorRef → M (Option Str)
unfolding slice load
producer e = elim (slice e) [ none ↦ pure none | some a ↦ (do s ← load a; pure s.producer) ]

unfoldable pub producer_signature : ErrorRef → M (Option Str)
unfolding slice load
producer_signature e = elim (slice e) [
  | none ↦ pure none
  | some a ↦ (do s ← load a; pure s.producer_signature)
]

pub record DiagnosticInfo : Type 0 where
  pub severity : DiagnosticSeverity
  pub message : Str
  pub file : Str
  pub line : ℕ
  pub column : ℕ

-- The snapshot that outlives the slice.
pub record ErrorRecord : Type 0 where
  pub code : Status
  pub diagnostics : List DiagnosticInfo
  pub producer : Option Str
  pub producer_signature : Option Str

abbrev pub diagnostic_info : StoredDiagView → DiagnosticInfo
diagnostic_info d = record {
  severity = d.sev;
  message = d.message;
  file = d.file;
  line = d.line;
  column = d.column;
}

-- `ErrorRef::record`
unfoldable pub error_record : ErrorRef → M ErrorRecord
unfolding get_status slice load
error_record e = do
  code ← get_status e
  elim (slice e) [
    | none ↦
        pure (record { code = code; diagnostics = []; producer = none; producer_signature = none })
    | some a ↦ (do
      s ← load a
      pure (record {
        code = code;
        diagnostics = map diagnostic_info s.diagnostics;
        producer = s.producer;
        producer_signature = s.producer_signature;
      }))
  ]

-- A step that succeeds hands on its result and its world.
pub bind_done {ℓ κ} :
    {A : Type ℓ} {B : Type κ} (m : M A) (f : A → M B) {w w' : World} {a : A}
    → m w ≡ done a w'
    → (m >>= f) w ≡ f a w'
bind_done m f e = rw (e, ◌>>=◌)
