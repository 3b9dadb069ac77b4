-- ===== src/Net.antt =====
-- The connections (src/zdtm_net.c): opening and closing them. The children have what is sent and
-- received over them.
pub mod Send
pub mod Recv
pub mod Wrapped
pub mod KeepsEnv
pub mod Format
use lib_zdtm_sync.Prelude.{
  ℕ, zero, Bool, true, false, ◌||◌, Option, none, some, List, [], ◌∷◌, if◌then◌else◌, not,
}
use lib_zdtm_sync.Prelude.Int.{ℤ, pos, negsuc, negative, nonzero}
use lib_zdtm_sync.Run.{M, Run, ok, fault, spin, pure, ◌>>=◌, ◌>>◌, return_if}
use lib_zdtm_sync.Env.{Env, State, get_env, update_env, call}
use lib_zdtm_sync.Platform.{Platform}

-- ZLISTPORT and DLISTPORT
abbrev pub zlistport : ℕ
zlistport = 4244

abbrev pub dlistport : ℕ
dlistport = 4245

-- INVALID_SOCKET and SOCKET_ERROR, both -1
abbrev pub is_error : ℤ → Bool
is_error (negsuc zero) = true
is_error _ = false

module _ {W : Type 0} (p : Platform W) where
  unfoldable pub listen_for_zaurus : M (State W) ℤ
  listen_for_zaurus = do
    fd ← call p.socket
    _ ← update_env (λ env. record env { listenfd = fd })
    return_if (is_error fd) (pure (negsuc 0))
    r ← call (p.setsockopt fd)
    return_if (is_error r) (pure (negsuc 1))
    r ← call (p.bind fd dlistport)
    return_if (is_error r) (pure (negsuc 2))
    r ← call (p.listen fd 1)
    return_if (is_error r) (pure (negsuc 3))
    pure (pos 0)

  unfoldable pub stop_listening : M (State W) ℤ
  stop_listening = do
    env ← get_env
    r ← call (p.close env.listenfd)
    return_if (is_error r) (pure (negsuc 0))
    pure (pos 0)

  unfoldable pub handle_zaurus_conn : M (State W) ℤ
  handle_zaurus_conn = do
    env ← get_env
    fd ← call (p.accept env.listenfd)
    _ ← update_env (λ env. record env { connfd = fd })
    return_if (is_error fd) (pure (negsuc 0))
    pure (pos 0)

  unfoldable pub close_zaurus_conn : M (State W) ℤ
  close_zaurus_conn = do
    env ← get_env
    r ← call (p.close env.connfd)
    return_if (is_error r) (pure (negsuc 0))
    pure (pos 0)

  -- `inet_pton(...) <= 0` is -2.
  unfoldable pub conn_to_zaurus : List ℕ → M (State W) ℤ
  conn_to_zaurus zaurus_ip = do
    fd ← call p.socket
    _ ← update_env (λ env. record env { reqfd = fd })
    return_if (is_error fd) (pure (negsuc 0))
    (r, addr) ← call (p.inet_pton zaurus_ip)
    return_if (negative r || not (nonzero r)) (pure (negsuc 1))
    r ← call (p.connect fd addr zlistport)
    return_if (is_error r) (pure (negsuc 2))
    pure (pos 0)

  unfoldable pub close_conn_to_zaurus : M (State W) ℤ
  close_conn_to_zaurus = do
    env ← get_env
    r ← call (p.close env.reqfd)
    return_if (is_error r) (pure (negsuc 0))
    pure (pos 0)
