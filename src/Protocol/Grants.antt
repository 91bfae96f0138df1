-- ===== src/Protocol/Grants.antt =====
-- What a command that Command.valid_command of selfhost_models/execution_protocol.py accepts says.
use selfhost_models.Prelude.{
  String, Bool, true, false, ◌&&◌, not, Option, none, some, arith, ◌≡◌, refl, eqb, eqb_iff, is_some,
  is, eq_iff, ap, sym, ◌∙◌, ◌↔◌, ◌==◌, inl, inr, Bool-cases,
}
use selfhost_models.Action.{ok}
use selfhost_models.Schema.Deployment.{Deployment, is_vllm}
use selfhost_models.Tables.{is_job}
use selfhost_models.Protocol.{
  Command, CommandKind, Grant, Payload, prepare, load, warmup, execute, unload, retire, release,
  is_execute, needs_no_handle, is_release, is_chat_payload, agree, payload_model, streams,
  grant_matches, valid_execution, valid_command,
}

-- A command that carries the permission to run on the GPU: its grant names this command, this
-- controller's epoch, this engine and this deployment; its payload is for the deployment's runtime
-- and model; and it streams only for a legacy request.
pub record IsGranted (id : Deployment → String) (c : Command) (g : Grant) (p : Payload)
    (d : Deployment) : Type 0 where
  pub grant : c.grant ≡ some g
  pub payload : c.payload ≡ some p
  pub deployment : c.deployment ≡ some d
  pub authority : g.authority ≡ c.authority
  pub executor : g.executor ≡ c.executor
  pub fence : g.fence ≡ c.fence
  pub handle : some g.handle ≡ c.handle
  pub names : g.deployment ≡ id d
  pub attempt : g.attempt ≡ c.id
  pub runtime : is_vllm d.runtime ≡ is_chat_payload p
  pub model : payload_model p ≡ d.model
  pub durable : (streams p && is_job g.kind) ≡ false

handle-some : (o : Option String) (h : String) → (is o h ≡ true) ↔ (some h ≡ o)
handle-some none h = (λ e. absurd (ground arith), λ e. absurd (ground arith))
handle-some (some x) h = (λ e. ap some (sym ((eq_iff x h).0 e)), λ e. (eq_iff x h).1 (ground arith))

all_six :
    (a b c d e f : Bool)
    → (a && (b && (c && (d && (e && f))))) ≡ true
    → (a ≡ true) × (b ≡ true) × (c ≡ true) × (d ≡ true) × (e ≡ true) × (f ≡ true)
all_six a b c d e f h = ground arith

agree-same : (a b : Bool) → agree a b ≡ true → a ≡ b
agree-same a b h = ground arith

same-agree : (a b : Bool) → a ≡ b → agree a b ≡ true
same-agree a b h = ground arith

module _ (id : Deployment → String) (c : Command) (g : Grant) (p : Payload) (d : Deployment) where
  -- what valid_execution tests of a grant, a payload and a deployment
  abbrev passes : Bool
  passes =
      grant_matches id c g d
      && (agree (is_vllm d.runtime) (is_chat_payload p)
          && (payload_model p == d.model && not (streams p && is_job g.kind)))

  valid_execution-passes :
      (valid_execution id c (some g) (some p) (some d) ≡ ok tt) ↔ (passes ≡ true)
  unfolding valid_execution
  valid_execution-passes = ground arith

  grant_six :
      grant_matches id c g d ≡ true
      → ((g.authority == c.authority) ≡ true)
        × ((g.executor == c.executor) ≡ true)
        × (eqb g.fence c.fence ≡ true)
        × (is c.handle g.handle ≡ true)
        × ((g.deployment == id d) ≡ true)
        × ((g.attempt == c.id) ≡ true)
  unfolding grant_matches
  grant_six h = all_six _ _ _ _ _ _ h

  passes-IsGranted :
      c.grant ≡ some g
      → c.payload ≡ some p
      → c.deployment ≡ some d
      → passes ≡ true
      → IsGranted id c g p d
  unfolding grant_matches
  passes-IsGranted hg hp hd h =
      let t = grant_six (ground arith) in
      record {
        grant = hg;
        payload = hp;
        deployment = hd;
        authority = (eq_iff _ _).0 t.0;
        executor = (eq_iff _ _).0 t.1;
        fence = (eqb_iff _ _).0 t.2;
        handle = (handle-some _ _).0 t.3;
        names = (eq_iff _ _).0 t.4;
        attempt = (eq_iff _ _).0 t.5;
        runtime = agree-same _ _ (ground arith);
        model = (eq_iff _ _).0 (ground arith);
        durable = ground arith;
      }

  IsGranted-passes : IsGranted id c g p d → passes ≡ true
  unfolding grant_matches
  IsGranted-passes x = ground (
    arith,
    (eq_iff g.authority c.authority).1 x.authority,
    (eq_iff g.executor c.executor).1 x.executor,
    (eqb_iff g.fence c.fence).1 x.fence,
    (handle-some c.handle g.handle).1 x.handle,
    (eq_iff g.deployment (id d)).1 x.names,
    (eq_iff g.attempt c.id).1 x.attempt,
    same-agree (is_vllm d.runtime) (is_chat_payload p) x.runtime,
    (eq_iff (payload_model p) d.model).1 x.model,
    x.durable,
  )

same_execution :
    (id : Deployment → String) (c : Command) (g g' : Option Grant) (p p' : Option Payload)
    (d d' : Option Deployment)
    → g ≡ g'
    → p ≡ p'
    → d ≡ d'
    → valid_execution id c g p d ≡ valid_execution id c g' p' d'
same_execution id c g g' p p' d d' a b e = cc

-- A valid execute command has a grant, a payload and a deployment.
granted_parts :
    (id : Deployment → String) (c : Command) (g : Option Grant) (p : Option Payload)
    (d : Option Deployment)
    → valid_execution id c g p d ≡ ok tt
    → (x : Grant) × (y : Payload) × (z : Deployment) × (g ≡ some x) × (p ≡ some y) × (d ≡ some z)
unfolding valid_execution
granted_parts id c (some g) (some p) (some d) h = (g, p, d, refl, refl, refl)
granted_parts id c none p d h = absurd (ground arith)
granted_parts id c (some g) none d h = absurd (ground arith)
granted_parts id c (some g) (some p) none h = absurd (ground arith)

execute_kind :
    (k : CommandKind) → is_execute k ≡ true → (is_release k ≡ false) × (needs_no_handle k ≡ false)
execute_kind execute h = (refl, refl)
execute_kind prepare h = absurd (ground arith)
execute_kind load h = absurd (ground arith)
execute_kind warmup h = absurd (ground arith)
execute_kind unload h = absurd (ground arith)
execute_kind retire h = absurd (ground arith)
execute_kind release h = absurd (ground arith)

module _ (id : Deployment → String) (c : Command) (h : is_execute c.kind ≡ true) where
  -- For an execute command that names a deployment and an engine, valid_command is valid_execution.
  valid_execute :
      is_some c.deployment ≡ true
      → is_some c.handle ≡ true
      → valid_command id c ≡ valid_execution id c c.grant c.payload c.deployment
  unfolding valid_command
  valid_execute d k = let t = execute_kind c.kind h in rw (t.0, t.1, d, k, h) refl

  -- A valid execute command names both.
  named_parts :
      valid_command id c ≡ ok tt → (is_some c.deployment ≡ true) × (is_some c.handle ≡ true)
  unfolding valid_command
  named_parts e =
      let t = execute_kind c.kind h in
      elim (Bool-cases (is_some c.deployment)) [
        | inr d ↦ absurd (ground (arith, rw (t.0, d) at e))
        | inl d ↦ elim (Bool-cases (is_some c.handle)) [
          | inr k ↦ absurd (ground (arith, rw (t.0, t.1, d, k) at e))
          | inl k ↦ (d, k)
        ]
      ]

  granted :
      valid_command id c ≡ ok tt
      → (g : Grant) × (p : Payload) × (d : Deployment) × IsGranted id c g p d
  granted e =
      let n = named_parts e in
      let v = sym (valid_execute n.0 n.1) ∙ e in
      let (g, p, d, hg, hp, hd) = granted_parts id c c.grant c.payload c.deployment v in
      let w = (valid_execution-passes id c g p d).0 (
        sym (same_execution id c c.grant (some g) c.payload (some p) c.deployment (some d) hg hp hd)
        ∙ v) in
      (g, p, d, passes-IsGranted id c g p d hg hp hd w)

  accepted :
      (g : Grant) (p : Payload) (d : Deployment) → IsGranted id c g p d → valid_command id c ≡ ok tt
  accepted g p d x =
      valid_execute (rw x.deployment refl) (rw (sym x.handle) refl)
      ∙ same_execution id c c.grant (some g) c.payload (some p) c.deployment (some d) x.grant
          x.payload x.deployment
      ∙ (valid_execution-passes id c g p d).1 (IsGranted-passes id c g p d x)

-- An execute command is valid just when it is granted: when it has a grant that names this command,
-- its controller's epoch, engine and deployment, and a payload for that deployment's runtime and
-- model, which streams only for a legacy request.
pub valid_execute-IsGranted :
    (id : Deployment → String) (c : Command)
    → is_execute c.kind ≡ true
    → (valid_command id c ≡ ok tt)
      ↔ ((g : Grant) × (p : Payload) × (d : Deployment) × IsGranted id c g p d)
valid_execute-IsGranted id c h = (granted id c h, λ (g, p, d, x). accepted id c h g p d x)
