-- ===== src/Log.antt =====
-- The log (src/zdtm_log.c). The text of each line is made by snprintf, a call of the platform; the
-- library decides which lines are made, whether they fit, and what is written to the file.
pub mod Bounds
pub mod Dump
pub mod View
pub mod KeepsEnv
pub mod Returns
pub mod Apart
use lib_zdtm_sync.Prelude.{
  ℕ, ◌+◌, ◌-◌, Option, none, some, List, [], ◌∷◌, ◌++◌, if◌then◌else◌, ltb, leb, ◌==◌, length, not,
}
use lib_zdtm_sync.Prelude.Int.{ℤ, pos, negsuc, nonzero}
use lib_zdtm_sync.Run.{M, ok, fault, spin, pure, undefined, defined, ◌>>=◌, ◌>>◌, return_if, split}
use lib_zdtm_sync.Env.{Env, State, get_env, update_env, call}
use lib_zdtm_sync.Platform.{Platform, Line, error_line}

-- "/.lib_zdtm_sync.log", and the room that it needs.
abbrev pub log_name : List ℕ
log_name =
    b'/' ∷ b'.' ∷ b'l' ∷ b'i' ∷ b'b' ∷ b'_' ∷ b'z' ∷ b'd' ∷ b't' ∷ b'm' ∷ b'_' ∷ b's' ∷ b'y' ∷ b'n'
    ∷ b'c' ∷ b'.' ∷ b'l' ∷ b'o' ∷ b'g' ∷ []

module _ {W : Type 0} (p : Platform W) where
  -- The text of $HOME without its NUL. A home of 256 bytes or more leaves the copy with no NUL, and
  -- strlen then reads behind it.
  unfoldable pub open_log : M (State W) ℤ
  open_log = do
    home ← call p.getenv_home
    elim home [
      | none ↦ pure (negsuc 0)
      | some path ↦
          if ltb 255 (length path)
          then undefined
          else if leb 19 (256 - length path - 1)
          then (do
            fp ← call (p.fopen (path ++ log_name))
            _ ← update_env (λ env. record env { logfp = fp })
            pure (elim fp [ none ↦ negsuc 2 | some _ ↦ pos 0 ]))
          else pure (negsuc 1)
    ]

  -- `size` bytes of `buff`; reading behind what was stored in the buffer is undefined behaviour.
  unfoldable pub write_log : List ℕ → ℕ → M (State W) ℤ
  write_log buff size = do
    env ← get_env
    elim env.logfp [
      | none ↦ pure (negsuc 0)
      | some fp ↦ do
        (text, _) ← defined (split size buff)
        written ← call (p.fwrite fp text)
        return_if (ltb written size) (pure (negsuc 1))
        r ← call (p.fflush fp)
        return_if (nonzero r) (pure (negsuc 2))
        pure (pos 0)
    ]

  unfoldable pub log_error : List ℕ → ℤ → M (State W) ℤ
  unfolding write_log
  log_error func_name err = elim (p.snprintf (error_line func_name err) 256) [
    | none ↦ pure (negsuc 0)
    | some (n, text) ↦
        if n == 256
        then pure (negsuc 1)
        else (do r ← write_log text n; return_if (nonzero r) (pure (negsuc 2)); pure (pos 0))
  ]

  unfoldable pub close_log : M (State W) ℤ
  close_log = do
    env ← get_env
    elim env.logfp [
      | none ↦ pure (negsuc 1)
      | some fp ↦ do r ← call (p.fclose fp); return_if (nonzero r) (pure (negsuc 0)); pure (pos 0)
    ]
