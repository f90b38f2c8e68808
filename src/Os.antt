-- ===== src/Os.antt =====
-- The operating system as one thread of the program sees it. It is no part of the repository, so its
-- answers are an input: a script of replies, one for each system call whose result the code uses,
-- in the order of the calls. The calls are logged. A thread whose script has run out is blocked in
-- the call that it made last.
pub mod Progress
pub mod Exchange
pub mod Aborts
pub mod Calls
use Prim.Native.String.{String}
use pixiecpp.Base.{ℕ, Bool, true, false, List, [], ◌∷◌, ◌++◌, ℤ, Bytes}

-- What a system call returns: its value, `errno`, the bytes that a read stores, and the two
-- descriptor sets that select stores.
pub record Reply : Type 0 where
  pub value : ℤ
  pub errno : ℕ
  pub bytes : Bytes
  pub read_set : List ℤ
  pub write_set : List ℤ

-- The values of Darwin, which `sin_len` and SO_NOSIGPIPE point to.
abbrev pub eintr : ℕ
eintr = 4

abbrev pub eagain : ℕ
eagain = 35

-- The calls, and the lines that the code prints on an error (`report`).
pub data Call : Type 0 where
  sys_read : ℤ → ℕ → Call
  sys_write : ℤ → Bytes → Call
  sys_close : ℤ → Call
  sys_gethostbyname : Bytes → Call
  sys_socket : Call
  sys_connect : ℤ → ℤ → Call
  sys_bind : ℤ → ℤ → Call
  sys_listen : ℤ → Call
  sys_accept : ℤ → Call
  sys_setsockopt : ℤ → String → Call
  sys_getsockopt : ℤ → String → Call
  sys_getfl : ℤ → Call
  sys_setfl : ℤ → ℕ → Call
  sys_shutdown : ℤ → String → Call
  sys_recv : ℤ → Call
  sys_sleep : ℕ → Call
  pthread_create : Call
  pthread_join : Call
  sys_select : ℤ → List ℤ → List ℤ → Call
  sys_set_timeout : ℤ → ℕ → Call
  report : String → Call

pub record World : Type 0 where
  pub script : List Reply
  pub log : List Call

-- How a computation ends: with a result, blocked in a system call, by a C++ exception, by a failed
-- `assert`, or by `exit`.
pub data Outcome {ℓ} (A : Type ℓ) : Type ℓ where
  returned : A → World → Outcome A
  blocked : World → Outcome A
  threw : World → Outcome A
  aborted : World → Outcome A
  exited : ℕ → World → Outcome A

abbrev pub M {ℓ} : Type ℓ → Type ℓ
M A = World → Outcome A

abbrev pub pure {ℓ} : {A : Type ℓ} → A → M A
pure a w = returned a w

abbrev pub bind {ℓ κ} : {A : Type ℓ} {B : Type κ} → Outcome A → (A → M B) → Outcome B
bind (returned a w) f = f a w
bind (blocked w) f = blocked w
bind (threw w) f = threw w
bind (aborted w) f = aborted w
bind (exited c w) f = exited c w

infixl 5 ◌>>=◌ ◌>>◌
abbrev pub ◌>>=◌ {ℓ κ} : {A : Type ℓ} {B : Type κ} → M A → (A → M B) → M B
◌>>=◌ m f w = bind (m w) f

abbrev pub ◌>>◌ {ℓ κ} : {A : Type ℓ} {B : Type κ} → M A → M B → M B
◌>>◌ m k = m >>= λ _. k

-- A call whose result the code looks at.
ask_script : List Reply → Call → M Reply
ask_script [] c w = blocked (record w { log = w.log ++ (c ∷ []) })
ask_script (r ∷ rs) c w = returned r (record { script = rs; log = w.log ++ (c ∷ []) })

unfoldable pub ask : Call → M Reply
unfolding ask_script
ask c w = ask_script w.script c w

-- A call whose result the code ignores, and which does not block.
abbrev pub note : Call → M (Unit {0})
note c w = returned tt (record w { log = w.log ++ (c ∷ []) })

-- `throw`, `assert(false)` and `exit(code)`
abbrev pub throw_exception {ℓ} : {A : Type ℓ} → M A
throw_exception w = threw w

abbrev pub assert_failed {ℓ} : {A : Type ℓ} → M A
assert_failed w = aborted w

abbrev pub exit {ℓ} : {A : Type ℓ} → ℕ → M A
exit code w = exited code w

-- A statement under an `if` with no `else`.
abbrev pub when : Bool → M (Unit {0}) → M (Unit {0})
when true m = m
when false m = pure tt

abbrev pub unless : Bool → M (Unit {0}) → M (Unit {0})
unless true m = pure tt
unless false m = m
