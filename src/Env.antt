-- ===== src/Env.antt =====
-- zdtm_lib_env (src/zdtm_types.h), and the state that a call of the library works on: that struct,
-- the world outside, and the number of blocks that malloc gave and that are not freed yet.
pub mod Valid
use lib_zdtm_sync.Prelude.{
  ℕ, ◌-◌, Option, none, some, List, ◌≡◌, arith, Bool, true, false, if◌then◌else◌,
}
use lib_zdtm_sync.Prelude.Int.{ℤ}
use lib_zdtm_sync.Run.{M, ok, ◌>>=◌}

-- One entry of the parameter format (struct zdtm_adi_msg_param).
pub record FormatParam : Type 0 where
  pub abrev : List ℕ
  pub type_id : ℕ
  pub desc_len : ℕ
  pub desc : Option (List ℕ)

-- A pointer is `none` where it is NULL, and else what it points at.
pub record Env : Type 0 where
  pub listenfd : ℤ
  pub connfd : ℤ
  pub reqfd : ℤ
  pub logfp : Option ℕ
  pub retreived_device_info : ℕ
  pub model : List ℕ
  pub language : List ℕ
  pub cur_auth_state : ℕ
  pub zaurus_ip : List ℕ
  pub sync_type : ℕ
  pub retrieved_sync_state : ℕ
  pub todo_slow_sync_required : ℕ
  pub calendar_slow_sync_required : ℕ
  pub address_book_slow_sync_required : ℕ
  pub num_params : ℕ
  pub params : Option (List FormatParam)
  pub passcode : Option (List ℕ)

pub record State (W : Type 0) : Type 0 where
  pub env : Env
  pub sys : W
  pub blocks : ℕ

module _ {W : Type 0} where
  abbrev pub get_env : M (State W) Env
  get_env s = ok s.env s

  abbrev pub update_env : (Env → Env) → M (State W) (Unit {0})
  update_env f s = ok tt (record s { env = f s.env })

  -- A call of the system, which knows nothing of the library's state.
  abbrev pub call : {A : Type 0} → (W → A × W) → M (State W) A
  call f s = let (a, w) = f s.sys in ok a (record s { sys = w })

  -- `free(p)`; of NULL it does nothing.
  abbrev pub free : {A : Type 0} → Option A → M (State W) (Unit {0})
  free none s = ok tt s
  free (some _) s = ok tt (record s { blocks = s.blocks - 1 })

-- A sequence keeps the environment where both its parts do.
pub bind-env :
    {W A B : Type 0} (m : M (State W) A) (f : A → M (State W) B)
    → ((s t : State W) (a : A) → m s ≡ ok a t → t.env ≡ s.env)
    → ((a : A) (s t : State W) (b : B) → f a s ≡ ok b t → t.env ≡ s.env)
    → (s t : State W) (b : B) → (m >>= f) s ≡ ok b t
    → t.env ≡ s.env
bind-env m f km kf s t b e = grind (arith, km, kf)

-- What holds of the environment before a sequence, or a choice, holds behind it where the parts keep
-- it.
module _ {W A : Type 0} (I : Env → Type 0) where
  pub bind-keeps :
      {B : Type 0} (m : M (State W) A) (f : A → M (State W) B)
      → ((s t : State W) (a : A) → m s ≡ ok a t → I s.env → I t.env)
      → ((a : A) (s t : State W) (b : B) → f a s ≡ ok b t → I s.env → I t.env)
      → (s t : State W) (b : B) → (m >>= f) s ≡ ok b t
      → I s.env
      → I t.env
  bind-keeps m f km kf s t b e h = grind (arith, km, kf)

  pub if-keeps :
      (b : Bool) (m n : M (State W) A)
      → ((s t : State W) (a : A) → m s ≡ ok a t → I s.env → I t.env)
      → ((s t : State W) (a : A) → n s ≡ ok a t → I s.env → I t.env)
      → (s t : State W) (a : A) → (if b then m else n) s ≡ ok a t
      → I s.env
      → I t.env
  if-keeps true m n km kn = km
  if-keeps false m n km kn = kn
