-- ===== src/Permission/Methods.antt =====
-- METHOD_ACTION_CLASS and classifyMethod of packages/daemon/src/permission.ts.
use revdev.Base.{Text, txt, Option, none, some, [], ◌∷◌}
use revdev.Base.Dict.{Dict, get}

pub data ActionClass : Type 0 where
  routine consequential critical : ActionClass

unfoldable pub method_action_class : Dict ActionClass
unfolding txt
method_action_class =
    (txt "ping", routine)
    ∷ (txt "session.register", routine)
    ∷ (txt "session.attach", routine)
    ∷ (txt "session.list", routine)
    ∷ (txt "session.snapshot.write", routine)
    ∷ (txt "session.snapshot.get", routine)
    ∷ (txt "session.snapshot.prune", routine)
    ∷ (txt "session.update", routine)
    ∷ (txt "mail.send", routine)
    ∷ (txt "mail.broadcast", routine)
    ∷ (txt "mail.inbox", routine)
    ∷ (txt "mail.markRead", routine)
    ∷ (txt "files.reserve", routine)
    ∷ (txt "files.check", routine)
    ∷ (txt "files.release", routine)
    ∷ (txt "files.list", routine)
    ∷ (txt "design.pack.status", routine)
    ∷ (txt "design.pack.watch", routine)
    ∷ (txt "design.pack.unwatch", routine)
    ∷ (txt "design.pack.scan", routine)
    ∷ (txt "tasks.create", routine)
    ∷ (txt "tasks.claim", routine)
    ∷ (txt "tasks.complete", routine)
    ∷ (txt "tasks.release", routine)
    ∷ (txt "tasks.list", routine)
    ∷ (txt "goal.create", routine)
    ∷ (txt "goal.get", routine)
    ∷ (txt "goal.list", routine)
    ∷ (txt "goal.setStatus", routine)
    ∷ (txt "goal.addCriterion", routine)
    ∷ (txt "goal.recordCriterion", routine)
    ∷ (txt "goal.listCriteria", routine)
    ∷ (txt "goal.progress", routine)
    ∷ (txt "goal.nextActions", routine)
    ∷ (txt "goal.proposeTask", routine)
    ∷ (txt "events.log", routine)
    ∷ (txt "events.query", routine)
    ∷ (txt "events.wait", routine)
    ∷ (txt "loop.arm", routine)
    ∷ (txt "loop.tick", routine)
    ∷ (txt "loop.status", routine)
    ∷ (txt "loop.spend", routine)
    ∷ (txt "loop.record_spend", routine)
    ∷ (txt "loop.pause", routine)
    ∷ (txt "loop.resume", routine)
    ∷ (txt "loop.stop", routine)
    ∷ (txt "context.snapshot", routine)
    ∷ (txt "memory.store", routine)
    ∷ (txt "memory.query", routine)
    ∷ (txt "harness.health", routine)
    ∷ (txt "inference.status", routine)
    ∷ (txt "inference.chat", routine)
    ∷ (txt "inference.generate", routine)
    ∷ (txt "file.read", routine)
    ∷ (txt "file.stat", routine)
    ∷ (txt "git.status", routine)
    ∷ (txt "git.diffFile", routine)
    ∷ (txt "git.diffContent", routine)
    ∷ (txt "git.readBlobAtHead", routine)
    ∷ (txt "git.readBlobAtIndex", routine)
    ∷ (txt "git.listBranches", routine)
    ∷ (txt "git.log", routine)
    ∷ (txt "worktree.list", routine)
    ∷ (txt "merge.status", routine)
    ∷ (txt "merge.list", routine)
    ∷ (txt "agent.output", routine)
    ∷ (txt "agent.streamTicket", routine)
    ∷ (txt "agent.resize", routine)
    ∷ (txt "agent.stop", routine)
    ∷ (txt "agent.list", routine)
    ∷ (txt "file.write", consequential)
    ∷ (txt "file.delete", consequential)
    ∷ (txt "git.stageFile", consequential)
    ∷ (txt "git.unstageFile", consequential)
    ∷ (txt "git.createBranch", consequential)
    ∷ (txt "git.switchBranch", consequential)
    ∷ (txt "git.deleteBranch", consequential)
    ∷ (txt "git.commit", consequential)
    ∷ (txt "git.pull", consequential)
    ∷ (txt "worktree.create", consequential)
    ∷ (txt "agent.input", consequential)
    ∷ (txt "merge.request", consequential)
    ∷ (txt "merge.update", consequential)
    ∷ (txt "agent.remove", consequential)
    ∷ (txt "agent.spawn", critical)
    ∷ (txt "git.push", critical)
    ∷ (txt "git.discardFile", critical)
    ∷ (txt "project.open", critical)
    ∷ (txt "project.grant", critical)
    ∷ (txt "project.revoke", critical)
    ∷ (txt "worktree.remove", critical)
    ∷ (txt "harness.prune", critical)
    ∷ (txt "identity.rotate", critical)
    ∷ (txt "session.end", critical)
    ∷ (txt "inference.pull", critical)
    ∷ (txt "inference.delete", critical)
    ∷ (txt "inference.start", critical)
    ∷ (txt "inference.stop", critical)
    ∷ (txt "permission.pending", routine)
    ∷ (txt "permission.decide", critical)
    ∷ (txt "permission.setMode", critical)
    ∷ (txt "permission.listGrants", routine)
    ∷ (txt "permission.grant", critical)
    ∷ (txt "permission.revokeGrant", critical)
    ∷ (txt "gateway.revokeToken", consequential)
    ∷ (txt "daemon.peers", routine)
    ∷ (txt "workflow.list", routine)
    ∷ (txt "workflow.run", consequential)
    ∷ (txt "skills.list", routine)
    ∷ (txt "skills.invoke", routine)
    ∷ (txt "graph.status", routine)
    ∷ (txt "graph.search", routine)
    ∷ (txt "graph.node", routine)
    ∷ (txt "graph.neighbors", routine)
    ∷ (txt "graph.at", routine)
    ∷ (txt "graph.context", routine)
    ∷ (txt "graph.addEpisode", routine)
    ∷ (txt "graph.outbox.push", consequential)
    ∷ (txt "graph.sync.pull", consequential)
    ∷ (txt "graph.communities", routine)
    ∷ (txt "graph.reconcile", consequential)
    ∷ (txt "skills.tool.Read", routine)
    ∷ (txt "skills.tool.Grep", routine)
    ∷ (txt "skills.tool.Glob", routine)
    ∷ (txt "skills.tool.Bash", critical)
    ∷ []

pub data SkillToolName : Type 0 where
  read grep glob bash : SkillToolName

-- SKILL_TOOL_METHODS
unfoldable pub skill_tool_method : SkillToolName → Text
unfolding txt
skill_tool_method read = txt "skills.tool.Read"
skill_tool_method grep = txt "skills.tool.Grep"
skill_tool_method glob = txt "skills.tool.Glob"
skill_tool_method bash = txt "skills.tool.Bash"

-- `METHOD_ACTION_CLASS.get(method) ?? 'critical'`
abbrev pub class_or_critical : Option ActionClass → ActionClass
class_or_critical none = critical
class_or_critical (some c) = c

unfoldable pub classify_method : Text → ActionClass
classify_method method = class_or_critical (get method_action_class method)
