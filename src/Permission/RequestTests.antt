-- ===== src/Permission/RequestTests.antt =====
-- The theorems on requests at inputs that meet their hypotheses.
use revdev.Base.{
  ℕ, Option, is_white, trim, Text, txt, text_eq, to_lower, ◌≡◌, refl, true, false, none, some, List,
  [], ◌∷◌,
}
use revdev.Base.Param.{number, num, str_or_null, undefined, string, str}
use revdev.Base.Result.{Result, ok}
use revdev.Permission.Paths.{CallParams}
use revdev.Permission.Policy.{manual, is_trusted_operator}
use revdev.Base.Table.{first_where, update_where}
use revdev.Permission.Tables.{
  ApprovalStatus, approval_decided, pending, approved, Db, log_event, is_pending,
}
use revdev.Permission.Approvals.{decide_approval, decided, unblock_session}
use revdev.Permission.Door.{
  SocketContext, RequestError, permission_gate, require_trusted_operator, verdict_of, rpc_decide,
}
use revdev.Permission.Requests.{Decided, rpc_decide-Decided}
use revdev.Permission.Summary.{summarize_params, summary_text, clip_summary, collapse}
use revdev.Permission.GrantRequests.{
  GrantParams, max_uses_of, expiry_of, grant_input, rpc_grant, GrantedBy, rpc_grant-GrantedBy,
}
use revdev.Permission.Grants.{
  issue_grant, check_classes, check_max_uses, check_expiry, clean_texts, clean_scope,
}
use revdev.Base.Number.{whole, is_finite}
use revdev.Permission.Summary.{texts_of}
use revdev.Permission.Tests.{
  second, new_grant, with_grant, ann, boss, deploy, gate_env, given, store,
}

abbrev params : CallParams
params = record {
  file_path = undefined;
  repo_path = undefined;
  path = undefined;
  cwd = undefined;
  remote = undefined;
  branch = undefined;
  command = undefined;
  name = undefined;
  args = [];
  others = [];
}

abbrev anchor : List Text
anchor = (98 ∷ 58 ∷ 107 ∷ []) ∷ []

-- The operator, whose key is in the anchor, and the agent.
abbrev signed_boss : SocketContext
signed_boss = record { agent_id = some boss; bound_by_signature = true; kid = some (107 ∷ []) }

abbrev unsigned_ann : SocketContext
unsigned_ann = record { agent_id = some ann; bound_by_signature = false; kid = none }

abbrev let_in : Db
let_in =
    (permission_gate gate_env anchor unsigned_ann (some manual) none deploy undefined params
      store).1

abbrev waits : Db
waits = record store {
  approvals = record given { status = pending; decided_by = none; decided_at = none } ∷ [];
}

abbrev decision : Result RequestError (ApprovalStatus × Db)
decision =
    rpc_decide 7 anchor signed_boss (ok boss) (string given.id) (string (txt "Approved")) waits

abbrev after_decision : Db
after_decision = record waits {
  approvals = record given { decided_at = some 7; expires_at = 300007 } ∷ [];
  events = approval_decided given.id true boss ∷ [];
}

boss_decides : decision ≡ ok (approved, after_decision)
unfolding rpc_decide require_trusted_operator is_trusted_operator verdict_of txt to_lower text_eq
    str decide_approval decided unblock_session first_where update_where is_pending log_event
boss_decides = refl

rpc_decide-Decided_example :
    Decided 7 anchor signed_boss
      (ok boss)
      (str (string given.id))
      (str (string (txt "Approved")))
      waits
      after_decision
rpc_decide-Decided_example =
    rpc_decide-Decided 7 anchor signed_boss (ok boss) (string given.id) (string (txt "Approved"))
      waits (approved, after_decision) boss_decides

abbrev push : CallParams
push = record params { remote = string (txt "origin"); branch = string (txt " main") }

pushes : summarize_params (txt "git.push") (some push) ≡ txt "git.push origin main"
unfolding summarize_params summary_text clip_summary collapse is_white trim txt text_eq
pushes = refl

abbrev asked : GrantParams
asked = record {
  grantee_agent_id = some (string ann);
  agent_id = undefined;
  classes = [];
  methods = string deploy ∷ [];
  root_scope = undefined;
  expires_at = undefined;
  max_uses = some (number (whole 2));
}

abbrev caller : Result RequestError Text
caller = ok boss

abbrev no_dates : Text → Option ℕ
no_dates s = none

granted : rpc_grant no_dates 5 second (ok boss) asked store ≡ ok (new_grant, with_grant)
unfolding rpc_grant grant_input issue_grant max_uses_of num is_finite expiry_of str str_or_null
    texts_of check_classes check_max_uses check_expiry clean_texts clean_scope trim to_lower text_eq
    txt log_event
granted = refl

rpc_grant-GrantedBy_example :
    (operator : Text) × (caller ≡ ok operator)
    × GrantedBy no_dates 5 operator second asked store new_grant with_grant
rpc_grant-GrantedBy_example =
    rpc_grant-GrantedBy no_dates 5 second (ok boss) asked store (new_grant, with_grant) granted
