-- ===== src/Complexity/Patterns/Scopes.antt =====
-- What names a reach of the work: _SCOPE_PATTERNS of backend/services/complexity_scorer.py, widest
-- first, and the patterns by which a request points at what came with it.
use mister_pilot_proxy.Prelude.{false, List, [], ◌∷◌, String}
use mister_pilot_proxy.Complexity.{
  Scope, function, class, one_module, multi_module, service, repository, cross_repository, Pattern,
  rx,
}

pub record ScopePattern : Type 0 where
  pub scope : Scope
  pub pattern : Pattern

abbrev entry : Scope → Pattern → ScopePattern
entry scope pattern = record { scope = scope; pattern = pattern }

abbrev pub cross_repository_words : Pattern
cross_repository_words = rx (
    "cross[- ]repo\\w*" ∷ "across (?:all )?(?:the )?(?:repos|repositories)"
    ∷ "(?:multiple|several|both|other|another|all) (?:repos|repositories)"
    ∷ "(?:sibling|upstream|downstream) (?:repo|repository|project)s?"
    ∷ "across (?:services|projects)" ∷ "multi[- ]repo" ∷ [])

abbrev pub repository_words : Pattern
repository_words = rx (
    "(?:entire|whole|full) (?:codebase|repo|repository|project|app|application)"
    ∷ "(?:across|throughout) (?:the )?(?:codebase|repo|repository|project)"
    ∷ "(?:repo|repository|project|codebase)[- ]wide" ∷ "everywhere"
    ∷ "all (?:the )?(?:files|modules|components|endpoints|services|usages|callers)"
    ∷ "every (?:file|module|component|endpoint|usage|caller)" ∷ [])

abbrev pub service_words : Pattern
service_words = rx (
    "system" ∷ "platform" ∷ "(?:micro)?service" ∷ "backend" ∷ "back-end" ∷ "server"
    ∷ "infrastructure" ∷ "pipeline" ∷ "application" ∷ [])

abbrev pub multi_module_words : Pattern
multi_module_words = rx (
    "frontend and backend" ∷ "front-?end and back-?end" ∷ "(?:client|ui) and (?:server|api)"
    ∷ "(?:several|multiple|these|those) (?:files|modules|components|classes|packages)"
    ∷ "across (?:modules|files|components|layers)" ∷ "full[- ]stack" ∷ "end[- ]to[- ]end"
    ∷ "both (?:the )?\\w+ and (?:the )?\\w+" ∷ [])

abbrev pub one_module_words : Pattern
one_module_words = rx (
    "module" ∷ "file" ∷ "package" ∷ "endpoint" ∷ "route" ∷ "controller" ∷ "page" ∷ "screen" ∷ "view"
    ∷ "component" ∷ "hook" ∷ "api" ∷ [])

abbrev pub class_words : Pattern
class_words = rx ("class" ∷ "struct" ∷ "interface" ∷ "model" ∷ "type" ∷ [])

abbrev pub function_words : Pattern
function_words = rx (
    "function" ∷ "method" ∷ "this line" ∷ "these lines" ∷ "snippet" ∷ "selection"
    ∷ "selected (?:code|text)" ∷ "expression" ∷ "variable" ∷ "lambda" ∷ "regex" ∷ "query" ∷ [])

abbrev pub scope_patterns : List ScopePattern
scope_patterns =
    entry cross_repository cross_repository_words
    ∷ entry repository repository_words
    ∷ entry service service_words
    ∷ entry multi_module multi_module_words
    ∷ entry one_module one_module_words
    ∷ entry class class_words
    ∷ entry function function_words
    ∷ []

abbrev pub refers_to_attachments : Pattern
refers_to_attachments = rx (
    "(?:these|those|the attached|attached|all (?:the|these|of these)?) ?files?"
    ∷ "the (?:selected|open|referenced) files" ∷ [])

abbrev pub refers_to_diagnostics : Pattern
refers_to_diagnostics = rx (
    "(?:all|these|those|the) (?:\\w+ )?(?:errors|warnings|problems|diagnostics|lint(?:s| errors)?)"
    ∷ "problems (?:panel|tab)" ∷ "type errors" ∷ "compile errors" ∷ "build errors" ∷ [])

-- `_PATH_RE`
abbrev pub path_pattern : Pattern
path_pattern = record {
  source =
      "(?:[A-Za-z]:[\\\\/]|\\.{0,2}[\\\\/])?(?:[\\w.@-]+[\\\\/])*[\\w.@-]+\\.(?:py|ts|tsx|js|jsx|mjs|cjs|java|go|rs|rb|cs|cpp|cc|c|h|hpp|kt|swift|php|scala|sql|sh|ps1|ya?ml|json|toml|md|html|css|scss|vue|svelte|dart|ex|exs)\\b";
  ignore_case = false;
  dot_all = false;
}

abbrev pub not_files : List String
not_files =
    "node.js" ∷ "next.js" ∷ "nuxt.js" ∷ "vue.js" ∷ "react.js" ∷ "express.js" ∷ "nest.js"
    ∷ "three.js" ∷ "d3.js" ∷ "chart.js" ∷ "ember.js" ∷ "backbone.js" ∷ "angular.js" ∷ "socket.js"
    ∷ "p5.js" ∷ "tensorflow.js" ∷ "moment.js" ∷ []
