-- ===== src/Routes/Once.antt =====
-- One-time consumption over HTTP.
use cpfbuddies.Prelude.{arith, ℕ, String, ◌≡◌, refl, sym, ap, ◌∙◌, none, some, List, [], ◌∷◌, ◌++◌}
use cpfbuddies.Errors.{Result, ok, err}
use cpfbuddies.Models.Mandate.{MandateRecord}
use cpfbuddies.Models.Config.{VerifierConfig}
use cpfbuddies.Stores.Mandates.Laws.{IsConsistent}
use cpfbuddies.Mandates.Rail.{Ports, Rail}
use cpfbuddies.Mandates.Service
use cpfbuddies.Mandates.Runs.{Call, step, run}
use cpfbuddies.Mandates.OneTime.{consume-consume}
use cpfbuddies.Verifier.Service as Verifier
use cpfbuddies.Routes.{
  answered, refused, Body, Request, refusal, respond, mandate_record, from_seconds, serve,
}

module _ (ports : Ports) (config : VerifierConfig) where
  -- The state that requests leave, whatever they are answered with
  unfoldable pub serve_all : List Request → Rail → Rail
  serve_all [] s = s
  serve_all (r ∷ rs) s = serve_all rs (serve ports config r s).1

  -- The calls of the Mandate Service that a request makes
  abbrev calls_of : Request → List Call
  calls_of (Request.mint principal agent_id max_amount intent ttl_seconds) =
      Call.mint principal agent_id max_amount intent (from_seconds ttl_seconds) none ∷ []
  calls_of (Request.get mandate_id) = []
  calls_of (Request.list_for_principal principal) = []
  calls_of (Request.history mandate_id) = []
  calls_of (Request.bind mandate_id binding approved_by) =
      Call.bind mandate_id binding approved_by ∷ []
  calls_of (Request.revoke mandate_id actor) = Call.revoke mandate_id actor ∷ []
  calls_of (Request.consume mandate_id actor) = Call.consume mandate_id actor ∷ []
  calls_of (Request.set_kill_switch active actor none) = Call.halt_all active actor ∷ []
  calls_of (Request.set_kill_switch active actor (some principal)) =
      Call.halt_principal principal active actor ∷ []
  calls_of (Request.verify request) =
      Call.record_verdict (Verifier.verify ports.lib config request) ∷ []

  abbrev all_calls : List Request → List Call
  all_calls [] = []
  all_calls (r ∷ rs) = calls_of r ++ all_calls rs

  serve-run : (r : Request) (s : Rail) → (serve ports config r s).1 ≡ run ports (calls_of r) s
  unfolding serve run step
  serve-run (Request.mint principal agent_id max_amount intent ttl_seconds) s = refl
  serve-run (Request.get mandate_id) s = refl
  serve-run (Request.list_for_principal principal) s = refl
  serve-run (Request.history mandate_id) s = refl
  serve-run (Request.bind mandate_id binding approved_by) s = refl
  serve-run (Request.revoke mandate_id actor) s = refl
  serve-run (Request.consume mandate_id actor) s = refl
  serve-run (Request.set_kill_switch active actor none) s = refl
  serve-run (Request.set_kill_switch active actor (some principal)) s = refl
  serve-run (Request.verify request) s = refl

  run-append :
      (cs ds : List Call) (s : Rail) → run ports (cs ++ ds) s ≡ run ports ds (run ports cs s)
  unfolding run
  run-append [] ds s = refl
  run-append (c ∷ cs) ds s = run-append cs ds (step ports c s)

  serve_all-run : (rs : List Request) (s : Rail) → serve_all rs s ≡ run ports (all_calls rs) s
  unfolding serve_all run
  serve_all-run [] s = refl
  serve_all-run (r ∷ rs) s =
      ap (serve_all rs) (serve-run r s)
      ∙ serve_all-run rs (run ports (calls_of r) s)
      ∙ sym (run-append (calls_of r) (all_calls rs) s)

  consume_answered :
      (mandate_id actor : String) (s s' : Rail) (code : ℕ) (body : Body)
      → serve ports config (Request.consume mandate_id actor) s ≡ (answered code body, s')
      → (r : MandateRecord) × (Service.consume ports mandate_id actor s ≡ (ok r, s'))
  unfolding serve
  consume_answered mandate_id actor s s' code body h =
      returned (Service.consume ports mandate_id actor s) (ap (λ p. p.0) h) (ap (λ p. p.1) h)
    where
      returned :
          (x : Result MandateRecord × Rail)
          → respond 200 mandate_record x.0 ≡ answered code body
          → x.1 ≡ s'
          → (r : MandateRecord) × (x ≡ (ok r, s'))
      returned (ok r, t) h e = (r, ap (λ u. (ok r, u)) e)
      returned (err e, t) h _ = absurd (ground arith)

  -- A mandate is consumed over HTTP at most once: after one request to consume it that was not refused, on a consistent
  -- store, each later one is answered with 409, whatever requests were served in between.
  pub consume_request-once :
      (mandate_id actor actor' : String) (s s' : Rail) (code : ℕ) (body : Body)
      (requests : List Request)
      → IsConsistent s.store
      → serve ports config (Request.consume mandate_id actor) s ≡ (answered code body, s')
      → (serve ports config (Request.consume mandate_id actor') (serve_all requests s')).0
        ≡ refused 409
  unfolding serve refusal
  consume_request-once mandate_id actor actor' s s' code body requests c h =
      let (r, done) = consume_answered mandate_id actor s s' code body h in
      let conflict =
        consume-consume ports mandate_id actor actor' s s' r (all_calls requests) c done in
      rw (serve_all-run requests s', conflict) refl
