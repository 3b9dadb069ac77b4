-- ===== src/Proto/Told.antt =====
-- What the operations of src/zdtm_proto.c make of the reply that they ask for: the parameter format
-- and the device information.
use lib_zdtm_sync.Prelude.{
  ℕ, suc, ◌+◌, ◌≤◌, ◌≡◌, refl, ap, ◌∙◌, arith, none, some, List, [], ◌∷◌, ◌++◌, map, drop, length,
  length-append,
}
use lib_zdtm_sync.Prelude.Int.{ℤ, pos, negsuc}
use lib_zdtm_sync.Run.{M, pure, ok, fault, ◌>>=◌, overlay_front, overlay_long}
use lib_zdtm_sync.Env.{Env, State}
use lib_zdtm_sync.Env.Valid.{IsEnv}
use lib_zdtm_sync.Platform.{Platform}
use lib_zdtm_sync.Requests.Kinds.{rdi, rig, message_of}
use lib_zdtm_sync.Requests.Length.{read_all}
use lib_zdtm_sync.Replies.Kinds.{aig, adi, IsReply}
use lib_zdtm_sync.Replies.Adi.Texts.{Text, param, rooms}
use lib_zdtm_sync.Msgs.{clean_message}
use lib_zdtm_sync.Message.{adi_msg_type}
use lib_zdtm_sync.Proto.{reply, refused, ask}
use lib_zdtm_sync.Proto.Session.{keep_format, obtain_param_format, keep_info, obtain_device_info}
use lib_zdtm_sync.Proto.Talk.{
  Cover, IsCover, Connected, says, portable, readable, ask-says, talk-says,
}

length-rooms : (xs : List Text) → length (rooms xs) ≡ length xs
length-rooms [] = refl
length-rooms (x ∷ xs) = ap suc (length-rooms xs)

-- The environment with the format of an item.
abbrev pub with_format : List Text → Env → Env
with_format params env = record env { num_params = length params; params = some (map param params) }

-- The environment with the device's model and its NUL over the model of before, its language and the
-- state of its authentication.
abbrev pub with_info : (model language : List ℕ) → ℕ → Env → Env
with_info model language auth_state env = record env {
  model = (model ++ (0 ∷ [])) ++ drop (length (model ++ (0 ∷ []))) env.model;
  language = language ++ drop (length language) env.language;
  cur_auth_state = auth_state;
  retreived_device_info = 1;
}

module _ {W : Type 0} (p : Platform W) where
  -- Where the environment has no parameter format and a device that the host is connected to
  -- describes the parameters of an item, the call returns 0 and the environment has that format:
  -- as many parameters as the device named, each with its abbreviation, its type and its
  -- description, in their order. Nothing behind the reply is read. The blocks that stay are the
  -- array and one for each description. The host has the memory that it asks for, the connection
  -- takes all that is sent, snprintf prints what it documents, and neither malloc, nor sending,
  -- nor writing to the log, be it open or not, touches what is to come.
  pub obtain_param_format-adi :
      (pending : W → List ℕ) (cards uk : ℕ) (params : List Text) (c : Cover) (rest : List ℕ)
      (s : State W)
      → Connected p pending s.env
      → s.env.params ≡ none
      → IsReply (adi cards uk params)
      → IsCover c
      → pending s.sys ≡ says c (adi cards uk params) rest
      → (w : W) × (obtain_param_format p s
          ≡ ok (pos 0) (record s {
            env = with_format params s.env;
            sys = w;
            blocks = s.blocks + 1 + length params;
          }))
        × (pending w ≡ rest)
  unfolding obtain_param_format keep_format clean_message
  obtain_param_format-adi pending cards uk params c rest s k unset h i e =
      let r = adi cards uk params in
      let q = rdi s.env.sync_type 0x07 in
      let (w, got, left) =
        ask-says p pending 0 q r c rest s k tt (portable q tt p.order) h (readable r tt p.order) i
          e in
      let ask_format : M (State W) ℤ = (do
        answer ← ask p 0 (message_of q) adi_msg_type
        elim answer [ refused r ↦ pure r | reply rmsg ↦ keep_format p rmsg ]) in
      (
        w,
        ap
              (λ o.
                (elim o as (λ _. M (State W) ℤ) [ none ↦ ask_format | some _ ↦ pure (negsuc 3) ]) s)
              unset
            ∙ rw (got, keep_format, ◌>>=◌)
                (ap
                  (λ n.
                    ok (pos 0) (record s { env = with_format params s.env; sys = w; blocks = n }))
                  (omega (arith, length-rooms params))),
        left,
      )

  -- Where a device that the host is connected to says what it is, with a model of 255 bytes at
  -- most, the call returns 0 and a well-formed environment has the model with its NUL, the
  -- language and the state of authentication that the device named, and is marked to have them.
  -- Nothing behind the reply is read. One block stays, that of the model in the reply, which
  -- nothing frees. The host has the memory that it asks for, the connection takes all that is
  -- sent, snprintf prints what it documents, and neither malloc, nor sending, nor writing to the
  -- log, be it open or not, touches what is to come.
  pub obtain_device_info-aig :
      (pending : W → List ℕ) (model uk_0 language : List ℕ) (auth_state : ℕ) (uk_1 : List ℕ)
      (c : Cover) (rest : List ℕ) (s : State W)
      → Connected p pending s.env
      → IsEnv s.env
      → length model ≤ 255
      → IsReply (aig model uk_0 language auth_state uk_1)
      → IsCover c
      → pending s.sys ≡ says c (aig model uk_0 language auth_state uk_1) rest
      → (w : W) × (obtain_device_info p s
          ≡ ok (pos 0) (record s {
            env = with_info model language auth_state s.env;
            sys = w;
            blocks = s.blocks + 1;
          }))
        × (pending w ≡ rest)
  unfolding obtain_device_info keep_info clean_message IsEnv
  obtain_device_info-aig pending model uk_0 language auth_state uk_1 c rest s k valid short h i e =
      let r = aig model uk_0 language auth_state uk_1 in
      let (v, w, sent, got, left) =
        talk-says p pending rig r c rest s k tt (portable rig tt p.order) h (readable r tt p.order)
          i e in
      let ((ip_size, (model_size, language_size)), flags) = valid in
      let size = length-append model (0 ∷ []) in
      (
        w,
        rw
            (
              sent,
              got,
              read_all (length model) model refl,
              overlay_front (model ++ (0 ∷ [])) s.env.model (omega arith),
              overlay_front language s.env.language (omega (arith, h)),
              obtain_device_info,
              keep_info,
              ◌>>=◌,
            )
            (ap
              (λ n.
                ok (pos 0) (record s {
                  env = with_info model language auth_state s.env;
                  sys = w;
                  blocks = n;
                }))
              (omega arith)),
        left,
      )

  -- Where its model has 256 bytes or more, the copy runs over the end of the environment's array,
  -- which is undefined behaviour. The host has the memory that it asks for, the connection takes
  -- all that is sent, snprintf prints what it documents, and neither malloc, nor sending, nor
  -- writing to the log, be it open or not, touches what is to come.
  pub obtain_device_info-long :
      (pending : W → List ℕ) (model uk_0 language : List ℕ) (auth_state : ℕ) (uk_1 : List ℕ)
      (c : Cover) (rest : List ℕ) (s : State W)
      → Connected p pending s.env
      → IsEnv s.env
      → 256 ≤ length model
      → IsReply (aig model uk_0 language auth_state uk_1)
      → IsCover c
      → pending s.sys ≡ says c (aig model uk_0 language auth_state uk_1) rest
      → obtain_device_info p s ≡ fault
  unfolding obtain_device_info keep_info IsEnv
  obtain_device_info-long pending model uk_0 language auth_state uk_1 c rest s k valid long h i e =
      let r = aig model uk_0 language auth_state uk_1 in
      let (v, w, sent, got, left) =
        talk-says p pending rig r c rest s k tt (portable rig tt p.order) h (readable r tt p.order)
          i e in
      let ((ip_size, (model_size, language_size)), flags) = valid in
      let size = length-append model (0 ∷ []) in
      rw
        (
          sent,
          got,
          read_all (length model) model refl,
          overlay_long (model ++ (0 ∷ [])) s.env.model (omega arith),
          obtain_device_info,
          keep_info,
          ◌>>=◌,
        )
        refl
