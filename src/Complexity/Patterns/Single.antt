-- ===== src/Complexity/Patterns/Single.antt =====
-- The single patterns of backend/services/complexity_scorer.py.
use mister_pilot_proxy.Prelude.{true, false, [], ◌∷◌}
use mister_pilot_proxy.Complexity.{Pattern, rx}

abbrev pub hard_debug : Pattern
hard_debug = rx (
    "race conditions?" ∷ "deadlocks?" ∷ "memory leaks?" ∷ "intermittent\\w*" ∷ "flaky" ∷ "heisenbug"
    ∷ "only (?:happens|fails) (?:in|on|under)" ∷ "under load" ∷ "in production"
    ∷ "non-?deterministic" ∷ "corrupt\\w*" ∷ "segfault" ∷ "undefined behaviou?r" ∷ [])

abbrev pub complicators : Pattern
complicators = rx (
    "backwards?[- ]compatib\\w+" ∷ "without breaking" ∷ "edge cases?" ∷ "validation"
    ∷ "error handling" ∷ "retr(?:y|ies)" ∷ "rollback" ∷ "transactions?" ∷ "timeouts?" ∷ "versioning"
    ∷ "pagination with (?:filter|sort)\\w*" ∷ "cursor[- ]based" ∷ "rate[- ]limit\\w*"
    ∷ "localization|i18n" ∷ "accessibility|a11y" ∷ "streaming" ∷ "real[- ]?time" ∷ "offline" ∷ [])

abbrev pub action_verbs : Pattern
action_verbs = rx (
    "add" ∷ "implement" ∷ "create" ∷ "build" ∷ "write" ∷ "fix" ∷ "refactor" ∷ "update" ∷ "remove"
    ∷ "delete" ∷ "rename" ∷ "migrate" ∷ "optimi[sz]e" ∷ "test" ∷ "document" ∷ "integrate"
    ∷ "replace" ∷ "convert" ∷ "deploy" ∷ "design" ∷ "extract" ∷ "move" ∷ "validate" ∷ "secure"
    ∷ "cache" ∷ [])

abbrev pub breadth_words : Pattern
breadth_words = rx (
    "complete" ∷ "full(?:y)?" ∷ "production[- ]ready" ∷ "end[- ]to[- ]end" ∷ "robust"
    ∷ "comprehensive" ∷ "from scratch" ∷ "entire" ∷ [])

abbrev pub code_reference : Pattern
code_reference = rx (
    "this" ∷ "these" ∷ "the (?:code|function|method|class|file|component|snippet)" ∷ "selected"
    ∷ "selection" ∷ "above" ∷ "below" ∷ [])

-- `_SCALE_RE`
abbrev pub scale_pattern : Pattern
scale_pattern = record {
  source =
      "\\d[\\d,.]*\\s*(?:k|m|b|thousand|million|billion)\\+?\\s+(?:users|requests|rps|qps|tps|transactions|events|messages|customers)|(?:millions|billions) of";
  ignore_case = true;
  dot_all = false;
}

-- `_FENCE_RE`
abbrev pub fence : Pattern
fence = record { source = "```.*?(?:```|$)"; ignore_case = false; dot_all = true }

-- `_ATTACHMENT_PATH_RE`
abbrev pub attachment_path : Pattern
attachment_path = record {
  source = "<attachment\\b[^>]*?\\b(?:filePath|path|uri|id)\\s*=\\s*[\\\"']([^\\\"']+)[\\\"']";
  ignore_case = true;
  dot_all = false;
}

-- `_PAIRED_BLOCK_RE`
abbrev pub paired_block : Pattern
paired_block = record {
  source = "<([A-Za-z][\\w.:-]*)\\b[^>]*>.*?</\\1\\s*>";
  ignore_case = false;
  dot_all = true;
}

-- `_ANY_TAG_RE`
abbrev pub any_tag : Pattern
any_tag = record {
  source = "</?[A-Za-z][\\w.:-]*(?:\\s[^>]*)?/?>";
  ignore_case = false;
  dot_all = false;
}

-- `_WS_RE`
abbrev pub white_space : Pattern
white_space = record { source = "\\s+"; ignore_case = false; dot_all = false }

-- `_FOLLOWUP_RE`
abbrev pub followup : Pattern
followup = record {
  source =
      "^\\s*(?:yes|yeah|yep|ok(?:ay)?|sure|go ahead|proceed|continue|do it|please do|sounds good|lgtm|try again|retry|again|same|keep going|next|go on|carry on|still (?:failing|broken|not working)|that didn'?t work|didn'?t work|not working)\\b[\\s.!,]*";
  ignore_case = true;
  dot_all = false;
}
