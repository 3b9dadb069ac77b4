-- ===== src/Proto/Valid.antt =====
-- The operations of the protocol that change the environment keep it well-formed.
use lib_zdtm_sync.Prelude.{ℕ, List, [], ◌∷◌, ◌++◌, length, ◌≡◌, some, Option-cases, inl, inr, arith}
use lib_zdtm_sync.Prelude.Int.{ℤ}
use lib_zdtm_sync.Run.{M, ok, pure, overlay}
use lib_zdtm_sync.Env.{Env, State}
use lib_zdtm_sync.Env.Valid.{IsEnv}
use lib_zdtm_sync.Platform.{Platform}
use lib_zdtm_sync.Msgs.KeepsEnv.{clean_message-env}
use lib_zdtm_sync.Log.KeepsEnv.{log_error-env}
use lib_zdtm_sync.Net.{conn_to_zaurus, handle_zaurus_conn, close_conn_to_zaurus}
use lib_zdtm_sync.Net.KeepsEnv.{
  send_message_to-env, wrapped_send_message-env, wrapped_recv_message-env,
}
use lib_zdtm_sync.Net.Format.{wrapped_recv_message-HasFormat}
use lib_zdtm_sync.Requests.{pointee, read}
use lib_zdtm_sync.Contents.{Adi}
use lib_zdtm_sync.Message.{Msg, as_adi, as_aig}
use lib_zdtm_sync.Msgs.Format.{HasFormat}
use lib_zdtm_sync.Proto.{Answer, reply, refused, await, ask, connect, disconnect}
use lib_zdtm_sync.Proto.Session.{
  set_slow_sync, reset_slow_sync, keep_info, obtain_device_info, obtain_sync_state,
  reset_sync_state, keep_format, obtain_param_format,
}
use lib_zdtm_sync.Proto.KeepsEnv.{ask-env}

length-overlay : (src b c : List ℕ) → overlay src b ≡ some c → length c ≡ length b
length-overlay [] b c e = ground arith
length-overlay (x ∷ src) [] c e = ground arith
length-overlay (x ∷ src) (y ∷ b) c e = grind (arith, length-overlay src b)

set_slow_sync-IsEnv : (flags : ℕ) (e : Env) → IsEnv e → IsEnv (set_slow_sync flags e)
unfolding IsEnv set_slow_sync
set_slow_sync-IsEnv flags e h = ground arith

reset_slow_sync-IsEnv : (e : Env) → IsEnv e → IsEnv (reset_slow_sync e)
unfolding IsEnv reset_slow_sync
reset_slow_sync-IsEnv e h = ground arith

module _ {W : Type 0} (p : Platform W) where
  conn_to_zaurus-IsEnv :
      (ip : List ℕ) (s t : State W) (r : ℤ)
      → conn_to_zaurus p ip s ≡ ok r t
      → IsEnv s.env
      → IsEnv t.env
  unfolding IsEnv conn_to_zaurus
  conn_to_zaurus-IsEnv ip s t r e h = ground arith

  handle_zaurus_conn-IsEnv :
      (s t : State W) (r : ℤ) → handle_zaurus_conn p s ≡ ok r t → IsEnv s.env → IsEnv t.env
  unfolding IsEnv handle_zaurus_conn
  handle_zaurus_conn-IsEnv s t r e h = ground arith

  pub connect-IsEnv :
      (ip : List ℕ) (s t : State W) (r : ℤ) → connect p ip s ≡ ok r t → IsEnv s.env → IsEnv t.env
  unfolding connect
  connect-IsEnv ip s t r e h =
      grind (arith, conn_to_zaurus-IsEnv, handle_zaurus_conn-IsEnv, send_message_to-env)

  pub obtain_sync_state-IsEnv :
      (s t : State W) (r : ℤ) → obtain_sync_state p s ≡ ok r t → IsEnv s.env → IsEnv t.env
  unfolding obtain_sync_state
  obtain_sync_state-IsEnv s t r e h = grind (arith, ask-env, clean_message-env, set_slow_sync-IsEnv)

  pub reset_sync_state-IsEnv :
      (s t : State W) (r : ℤ) → reset_sync_state p s ≡ ok r t → IsEnv s.env → IsEnv t.env
  unfolding reset_sync_state
  reset_sync_state-IsEnv s t r e h =
      grind (arith, ask-env, clean_message-env, reset_slow_sync-IsEnv)

  -- the format of the reply that is awaited
  abbrev Holds : Answer → Type 0
  Holds (refused r) = Unit
  Holds (reply m) = HasFormat m.cont

  await-Holds :
      (base : ℕ) (mtype : List ℕ) (s t : State W) (r : Answer)
      → await p base mtype s ≡ ok r t
      → Holds r
  unfolding await
  await-Holds base mtype s t r e = grind (arith, wrapped_recv_message-HasFormat)

  ask-Holds :
      (base : ℕ) (m : Msg) (mtype : List ℕ) (s t : State W) (r : Answer)
      → ask p base m mtype s ≡ ok r t
      → Holds r
  unfolding ask
  ask-Holds base m mtype s t r e = grind (arith, await-Holds)

  store_format-IsEnv :
      (env : Env) (m : Msg) (adi : Adi)
      → HasFormat m.cont
      → as_adi m.cont ≡ some adi
      → IsEnv env
      → IsEnv (record env { num_params = adi.num_params; params = adi.params })
  unfolding HasFormat IsEnv
  store_format-IsEnv env m adi f e h = grind arith

  keep_format-IsEnv :
      (m : Msg) (s t : State W) (r : ℤ)
      → keep_format p m s ≡ ok r t
      → HasFormat m.cont
      → IsEnv s.env
      → IsEnv t.env
  unfolding keep_format
  keep_format-IsEnv m s t r e f h = elim (Option-cases (as_adi m.cont)) [
    | inl g ↦ ground (arith, g)
    | inr (adi, g) ↦ grind (arith, g, clean_message-env, store_format-IsEnv s.env m adi f g h)
  ]

  answered-IsEnv :
      (a : Answer) (s t : State W) (r : ℤ)
      → (elim a as (λ _. M (State W) ℤ) [ refused r ↦ pure r | reply m ↦ keep_format p m ]) s
        ≡ ok r t
      → Holds a
      → IsEnv s.env
      → IsEnv t.env
  answered-IsEnv (refused k) s t r e f h = ground arith
  answered-IsEnv (reply m) s t r e f h = keep_format-IsEnv m s t r e f h

  pub obtain_param_format-IsEnv :
      (s t : State W) (r : ℤ) → obtain_param_format p s ≡ ok r t → IsEnv s.env → IsEnv t.env
  unfolding obtain_param_format
  obtain_param_format-IsEnv s t r e h = grind (arith, ask-env, ask-Holds, answered-IsEnv)

  pub disconnect-env : (s t : State W) (r : ℤ) → disconnect p s ≡ ok r t → t.env ≡ s.env
  unfolding disconnect close_conn_to_zaurus
  disconnect-env s t r e = ground arith

  store_info-IsEnv :
      (env : Env) (model_str language new_model new_language : List ℕ) (auth : ℕ)
      → overlay model_str env.model ≡ some new_model
      → overlay language env.language ≡ some new_language
      → IsEnv env
      → IsEnv (record env {
        model = new_model;
        language = new_language;
        cur_auth_state = auth;
        retreived_device_info = 1;
      })
  unfolding IsEnv
  store_info-IsEnv env model_str language new_model new_language auth e f h = ground (
    arith,
    length-overlay model_str env.model new_model,
    length-overlay language env.language new_language,
  )

  -- what holds of the environment where the information of the device is stored
  pub keep_info-keeps :
      (I : Env → Type 0)
      → ((env : Env) (model_str language new_model new_language : List ℕ) (auth : ℕ)
          → overlay model_str env.model ≡ some new_model
          → overlay language env.language ≡ some new_language
          → I env
          → I (record env {
            model = new_model;
            language = new_language;
            cur_auth_state = auth;
            retreived_device_info = 1;
          }))
      → (m : Msg) (s t : State W) (r : ℤ) → keep_info p m s ≡ ok r t
      → I s.env
      → I t.env
  unfolding keep_info
  keep_info-keeps I store m s t r e h = elim (Option-cases (as_aig m.cont)) [
    | inl g ↦ ground (arith, g)
    | inr (aig, g) ↦ elim (Option-cases (read aig.model_str_len (pointee aig.model_str))) [
      | inl g' ↦ ground (arith, g, g')
      | inr (b, g') ↦ elim (Option-cases (overlay (b ++ (0 ∷ [])) s.env.model)) [
        | inl k ↦ ground (arith, g, g', k)
        | inr (model, k) ↦ elim (Option-cases (overlay aig.language s.env.language)) [
          | inl k' ↦ ground (arith, g, g', k, k')
          | inr (language, k') ↦
              let stored =
                store s.env (b ++ (0 ∷ [])) aig.language model language aig.auth_state k k' h in
              grind (arith, g, g', k, k', stored, clean_message-env)
        ]
      ]
    ]
  ]

  pub obtain_device_info-IsEnv :
      (s t : State W) (r : ℤ) → obtain_device_info p s ≡ ok r t → IsEnv s.env → IsEnv t.env
  unfolding obtain_device_info
  obtain_device_info-IsEnv s t r e h = grind (
    arith,
    wrapped_send_message-env,
    wrapped_recv_message-env,
    log_error-env,
    clean_message-env,
    keep_info-keeps IsEnv store_info-IsEnv,
  )
