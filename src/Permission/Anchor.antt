-- ===== src/Permission/Anchor.antt =====
-- The trust anchor of packages/daemon/src/permission.ts, and the operator door of packages/daemon/src/server.ts.
use mathlib.Core.List.{Mem}
use revdev.Base.{
  Text, txt, text_eq, text_eq_iff, any-Mem, ◌≡◌, ◌≢◌, refl, ◌⊎◌, Bool, true, false, ◌&&◌, Option,
  none, some, List, [], ◌∷◌, ◌++◌, any, arith,
}
use revdev.Permission.Policy.{is_trusted_operator}
use revdev.Permission.Door.{SocketContext, is_operator_door}

-- The anchor lists the agent with the fingerprint, neither of them empty.
pub record Anchored (entries : List Text) (agent fingerprint : Text) : Type 0 where
  pub has_name : agent ≢ []
  pub has_key : fingerprint ≢ []
  pub entry : Mem (agent ++ b':' ∷ fingerprint) entries

pub is_trusted_operator-Anchored :
    (entries : List Text) (agent fingerprint : Text)
    → is_trusted_operator entries agent (some fingerprint) ≡ true
    → Anchored entries agent fingerprint
unfolding is_trusted_operator
is_trusted_operator-Anchored entries agent fingerprint h = record {
  has_name = λ e. ground (arith, text_eq_iff agent []);
  has_key = λ e. ground (arith, text_eq_iff fingerprint []);
  entry = any-Mem (agent ++ b':' ∷ fingerprint) entries (ground arith);
}

-- What the operator door asks of a request.
pub record ByOperator (entries : List Text) (ctx : SocketContext) (method : Text) : Type 0 where
  pub for_method : (method ≡ txt "permission.decide") ⊎ (method ≡ txt "permission.setMode")
  pub signed : ctx.bound_by_signature ≡ true
  pub agent : Text
  pub is_caller : ctx.agent_id ≡ some agent
  pub fingerprint : Text
  pub signer : ctx.kid ≡ some fingerprint
  pub anchored : Anchored entries agent fingerprint

door_method :
    (method : Text)
    → any (text_eq method) (txt "permission.decide" ∷ txt "permission.setMode" ∷ []) ≡ true
    → (method ≡ txt "permission.decide") ⊎ (method ≡ txt "permission.setMode")
door_method method h = ground (
  arith,
  text_eq_iff method (txt "permission.decide"),
  text_eq_iff method (txt "permission.setMode"),
)

-- The agent and the fingerprint of a connection, where the anchor lists them.
known_operator :
    (entries : List Text) (caller key : Option Text)
    → elim caller [ none ↦ false | some agent ↦ is_trusted_operator entries agent key ] ≡ true
    → (agent : Text) × (fingerprint : Text) × (caller ≡ some agent)
      × (key ≡ some fingerprint)
      × Anchored entries agent fingerprint
unfolding is_trusted_operator
known_operator entries none key h = cc
known_operator entries (some agent) none h = cc
known_operator entries (some agent) (some fingerprint) h =
    (agent, fingerprint, refl, refl, is_trusted_operator-Anchored entries agent fingerprint h)

all_three : (a b c : Bool) → a && b && c ≡ true → (a ≡ true) × (b ≡ true) × (c ≡ true)
all_three a b c h = ground arith

pub is_operator_door-ByOperator :
    (entries : List Text) (method : Text) (ctx : SocketContext)
    → is_operator_door entries method ctx ≡ true
    → ByOperator entries ctx method
unfolding is_operator_door
is_operator_door-ByOperator entries method ctx h =
    let (listed, bound, known) = all_three _ _ _ h in
    let (agent, fingerprint, caller, key, anchored) =
      known_operator entries ctx.agent_id ctx.kid known in
    record {
      for_method = door_method method listed;
      signed = bound;
      agent = agent;
      is_caller = caller;
      fingerprint = fingerprint;
      signer = key;
      anchored = anchored;
    }
