-- ===== src/Log/Apart.antt =====
-- The dump of a message while a connection is read (_zdtm_dump_msg_log of src/zdtm_log.c).
use lib_zdtm_sync.Prelude.{ℕ, ◌≡◌, refl, ap, ◌∙◌, List, length}
use lib_zdtm_sync.Prelude.Int.{ℤ}
use lib_zdtm_sync.Run.{ok}
use lib_zdtm_sync.Env.{State}
use lib_zdtm_sync.Platform.{Platform}
use lib_zdtm_sync.Requests.{pointee}
use lib_zdtm_sync.Message.{Msg}
use lib_zdtm_sync.Log.Bounds.{Prints}
use lib_zdtm_sync.Log.View.{dump_msg_log-view}
use lib_zdtm_sync.Log.Dump.{dump_msg_log}
use lib_zdtm_sync.Log.Returns.{dump_msg_log-returns}

module _ {W : Type 0} (p : Platform W) where
  -- snprintf prints what it documents, and writing to the log file does not touch what is to come on
  -- the connection. Whether a log is open, and whether writing to it succeeds, is left open.
  pub record LogsApart (pending : W → List ℕ) : Type 0 where
    pub prints : Prints p
    pub written : (fp : ℕ) (b : List ℕ) (w : W) → pending (p.fwrite fp b w).1 ≡ pending w
    pub flushed : (fp : ℕ) (w : W) → pending (p.fflush fp w).1 ≡ pending w

  -- A dump changes the world alone, and of that not what is to come.
  pub dump_msg_log-apart :
      (pending : W → List ℕ) (m : Msg) (s : State W)
      → LogsApart pending
      → length m.header ≡ 13
      → length (pointee m.raw_content) ≡ m.cont_size
      → (r : ℤ) × (w : W) × (dump_msg_log p m s ≡ ok r (record s { sys = w }))
        × (pending w ≡ pending s.sys)
  dump_msg_log-apart pending m s log header content =
      let (r, t, run, env) = dump_msg_log-returns p m s log.prints header content in
      let blocks =
        dump_msg_log-view p (λ (u : State W). u.blocks) (λ fp b u. refl) (λ fp u. refl) m s t r
          run in
      let kept =
        dump_msg_log-view p (λ (u : State W). pending u.sys) (λ fp b u. log.written fp b u.sys)
          (λ fp u. log.flushed fp u.sys) m s t r run in
      (
        r,
        t.sys,
        run
            ∙ ap (λ e. ok r (record t { env = e })) env
            ∙ ap (λ n. ok r (record s { sys = t.sys; blocks = n })) blocks,
        kept,
      )
