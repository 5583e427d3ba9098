-- ===== src/Complexity/Patterns/Tasks.antt =====
-- What names a kind of work: _TASK_PATTERNS of backend/services/complexity_scorer.py. A weight is
-- the nearest double, in units of 2^-52.
use mister_pilot_proxy.Prelude.{ℕ, List, [], ◌∷◌}
use mister_pilot_proxy.Complexity.{
  TaskType, explanation, edit, bugfix, refactor, feature, debugging, optimization, security,
  architecture, system_design, Pattern, rx,
}

pub record TaskPattern : Type 0 where
  pub task : TaskType
  pub pattern : Pattern
  pub weight : ℕ

abbrev entry : TaskType → Pattern → ℕ → TaskPattern
entry task pattern weight = record { task = task; pattern = pattern; weight = weight }

abbrev pub explanation_words : Pattern
explanation_words = rx (
    "explain\\w*" ∷ "what (?:does|is|are|was)" ∷ "what's" ∷ "how does"
    ∷ "how do(?:es)? (?:this|it|that)" ∷ "walk (?:me )?through" ∷ "describe" ∷ "summari[sz]e"
    ∷ "tell me (?:about|what)" ∷ "meaning of" ∷ "help me understand" ∷ "understand"
    ∷ "what happens (?:when|if)" ∷ "difference between" ∷ [])

abbrev pub edit_words : Pattern
edit_words = rx (
    "rename" ∷ "change" ∷ "update" ∷ "modify" ∷ "tweak" ∷ "adjust" ∷ "re-?format" ∷ "format"
    ∷ "move" ∷ "replace" ∷ "remove" ∷ "delete" ∷ "bump" ∷ "convert"
    ∷ "add (?:a |an )?(?:comment|comments|docstring|type hints?|types|log(?:ging)?|import|prop|field|param(?:eter)?|argument|label|tooltip|placeholder|class ?name|style|margin|padding)"
    ∷ "fix (?:the )?typo" ∷ "typo" ∷ "wording" ∷ "sort (?:the )?imports" ∷ [])

abbrev pub bugfix_words : Pattern
bugfix_words = rx (
    "fix\\w*" ∷ "bug\\w*" ∷ "broken" ∷ "doesn'?t work" ∷ "not working" ∷ "error" ∷ "exception"
    ∷ "crash\\w*" ∷ "null ?pointer" ∷ "undefined" ∷ "fail(?:s|ing|ed|ure)?" ∷ "incorrect"
    ∷ "wrong (?:output|result|value)" ∷ "type ?error" ∷ "regression" ∷ "stopped working" ∷ [])

abbrev pub debugging_words : Pattern
debugging_words = rx (
    "debug\\w*" ∷ "investigate" ∷ "root cause" ∷ "diagnos\\w+" ∷ "intermittent\\w*" ∷ "flaky"
    ∷ "race condition" ∷ "deadlock\\w*" ∷ "memory leak" ∷ "leak\\w*" ∷ "hang(?:s|ing)?"
    ∷ "heisenbug" ∷ "stack ?trace" ∷ "reproduce"
    ∷ "why (?:does|is|do) .{0,60}(?:fail|crash|hang|slow|leak|break|error|timeout)\\w*" ∷ "segfault"
    ∷ "core dump" ∷ "only (?:happens|fails) (?:in|on|under)" ∷ [])

abbrev pub refactor_words : Pattern
refactor_words = rx (
    "refactor\\w*" ∷ "restructur\\w+" ∷ "clean ?up" ∷ "extract" ∷ "decouple"
    ∷ "split (?:this |it )?into" ∷ "reorgani[sz]\\w+" ∷ "simplif\\w+" ∷ "de-?duplicate"
    ∷ "dry (?:this|it) up" ∷ "consolidate" ∷ "modulari[sz]e" ∷ "rewrite" ∷ "port (?:this|it) to"
    ∷ "migrate (?:this|the)? ?(?:code|component|module)s? to"
    ∷ "convert (?:this |the )?(?:project |codebase )?to typescript" ∷ [])

abbrev pub feature_words : Pattern
feature_words = rx (
    "implement\\w*"
    ∷ "add (?:support|a new|an? \\w+ (?:endpoint|page|feature|screen|view|form|api|button|flow|service|integration|command|option))"
    ∷ "add \\w+(?:ing|ion)" ∷ "build" ∷ "create" ∷ "develop" ∷ "introduce" ∷ "integrate" ∷ "set ?up"
    ∷ "wire (?:up|in)" ∷ "support for"
    ∷ "new (?:feature|endpoint|page|screen|service|module|component)"
    ∷ "write (?:a|an) (?:service|module|api|endpoint|script|cli|tool|component|hook|worker|job|scheduler|parser)"
    ∷ "pagination" ∷ "add pagination" ∷ "login" ∷ "sign ?up" ∷ "checkout" ∷ "export (?:to|as)"
    ∷ "upload" ∷ "notifications?" ∷ [])

abbrev pub optimization_words : Pattern
optimization_words = rx (
    "optimi[sz]\\w+" ∷ "speed (?:up|it up)" ∷ "faster" ∷ "performance" ∷ "slow\\w*" ∷ "latency"
    ∷ "reduce (?:memory|cpu|allocations|load time|bundle size|latency)" ∷ "throughput" ∷ "n ?\\+ ?1"
    ∷ "bottleneck" ∷ "profil\\w+" ∷ "too much memory" ∷ "make (?:it|this) scale" ∷ [])

abbrev pub security_words : Pattern
security_words = rx (
    "security (?:review|audit|issue|hole|fix)" ∷ "audit" ∷ "vulnerab\\w+" ∷ "harden\\w*"
    ∷ "secure (?:this|the|it|our)" ∷ "sanitiz\\w+" ∷ "xss" ∷ "csrf" ∷ "sql injection" ∷ "injection"
    ∷ "cve-?\\d*" ∷ "pen ?test\\w*" ∷ "threat model\\w*" ∷ "owasp" ∷ "exploit\\w*"
    ∷ "leak(?:ing|ed)? (?:secrets?|credentials?|tokens?|keys?)" ∷ [])

abbrev pub architecture_words : Pattern
architecture_words = rx (
    "architect\\w*"
    ∷ "design (?:the|a|an|our) (?:architecture|structure|module|layer|data model|schema|domain|api|interface|abstraction)"
    ∷ "microservices?" ∷ "event[- ]driven" ∷ "cqrs" ∷ "event sourcing" ∷ "hexagonal"
    ∷ "clean architecture" ∷ "domain[- ]driven" ∷ "ddd" ∷ "split (?:the )?monolith" ∷ "decompose"
    ∷ "service boundar\\w+" ∷ "bounded contexts?" ∷ "plugin (?:system|architecture)" ∷ [])

abbrev pub system_design_words : Pattern
system_design_words = rx (
    "system design" ∷ "design (?:a|an|the) .{0,40}(?:system|platform|infrastructure|backend)"
    ∷ "(?:scalable|distributed|highly available|fault[- ]tolerant) (?:system|platform|architecture|service)"
    ∷ "\\d[\\d,.]*\\s*(?:k|m|b|thousand|million|billion)\\+?\\s+(?:users|requests|rps|qps|tps|transactions|events|messages|customers)"
    ∷ "(?:millions|billions) of (?:users|requests|events|transactions)" ∷ "multi[- ]region"
    ∷ "globally distributed" ∷ "high availability" ∷ [])

abbrev pub task_patterns : List TaskPattern
task_patterns =
    entry explanation explanation_words 4503599627370496
    ∷ entry edit edit_words 5404319552844595
    ∷ entry bugfix bugfix_words 6305039478318694
    ∷ entry debugging debugging_words 8106479329266893
    ∷ entry refactor refactor_words 7205759403792794
    ∷ entry feature feature_words 6755399441055744
    ∷ entry optimization optimization_words 7656119366529843
    ∷ entry security security_words 9007199254740992
    ∷ entry architecture architecture_words 9907919180215092
    ∷ entry system_design system_design_words 13510798882111488
    ∷ []
