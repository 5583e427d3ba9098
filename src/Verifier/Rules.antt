-- ===== src/Verifier/Rules.antt =====
-- The rules by which a request is taken for an attempt on the grader: _INJECTION_RULES of
-- backend/services/complexity_verifier.py, with the parts that the patterns share written out.
use mister_pilot_proxy.Prelude.{true, false, List, [], ◌∷◌}
use mister_pilot_proxy.Complexity.{Pattern, Family}

abbrev pub instruction_override : Pattern
instruction_override = record {
  source =
      "\\b(?:ignore|disregard|forget|override)\\s+(?:all\\s+|any\\s+)?(?:of\\s+)?(?:(?:the|your|these|those)\\s+)?(?:previous|prior|above|earlier|preceding|original|system)\\s+(?:instructions?|prompts?|rules|guidelines?|directives?|messages)\\b|\\b(?:ignore|disregard|forget)\\s+(?:all\\s+)?your\\s+(?:instructions?|guidelines?|directives?|rules|system prompt)\\b|\\bforget\\s+(?:everything|all)\\s+(?:above|before|you (?:were|have been) told)\\b";
  ignore_case = true;
  dot_all = false;
}

abbrev pub role_hijack : Pattern
role_hijack = record {
  source =
      "\\byou are now\\b|\\bfrom now on,?\\s+you\\s+(?:are|will|must|should)\\b|\\byou\\s+(?:must\\s+|should\\s+|will\\s+|now\\s+)*(?:act|behave|respond)\\s+as\\s+(?:an?\\s+|the\\s+)?(?:different|new|unrestricted|verifier|scorer|grader|judge|evaluator)\\b|\\bpretend\\s+(?:to\\s+be|you\\s+are)\\s+(?:an?\\s+|the\\s+)?(?:ai|model|assistant|verifier|scorer|grader|judge|evaluator)\\b|\\bdan mode\\b";
  ignore_case = true;
  dot_all = false;
}

abbrev pub role_marker : Pattern
role_marker = record {
  source =
      "<\\|(?:im_start|im_end|system|user|assistant|endoftext)\\|>|\\[/?INST\\]|<</?SYS>>|\\b(?:assistant|verifier|scorer|grader|judge|evaluator)\\s*:|\\b(?:system|developer)(?:\\s+(?:prompt|message|note|instructions?))?\\s*:\\s*.{0,40}\\b(?:ignore|disregard|you are|you must|you will|score|rate this|respond only|output only|return only)\\b";
  ignore_case = true;
  dot_all = false;
}

abbrev pub delimiter_escape : Pattern
delimiter_escape = record {
  source = "<{3}\\s*(?:end\\s+)?request\\b|\\bend\\s+request\\s*>{3}";
  ignore_case = true;
  dot_all = false;
}

abbrev pub schema_spoof : Pattern
schema_spoof = record {
  source =
      "[\\\"'](?:complexity_score|injection_detected|reasoning_depth)[\\\"']\\s*:|\\b(?:complexity_score|injection_detected)\\s*[:=]\\s*(?:\\d|true|false)";
  ignore_case = true;
  dot_all = false;
}

abbrev pub score_dictation : Pattern
score_dictation = record {
  source =
      "\\b(?:score|rate|grade|classify|rank)\\s+(?:this|it|me|my\\s+(?:request|task|prompt|query)|the\\s+(?:request|task|prompt|query))\\s+(?:as|at|to|a|an|=|:)?\\s*(?:an?\\s+)?(?:\\d{1,2}\\b|maximum|max|highest|minimum|min|lowest|expert|trivial)\\b|\\b(?:score|rating|grade|complexity|difficulty)\\b.{0,20}\\b\\d{1,2}\\s*(?:/\\s*20|out of 20)\\b|\\b(?:complexity|difficulty)\\s+score\\s+(?:of|=|:|is|should be|must be)\\s*\\d{1,2}\\b";
  ignore_case = true;
  dot_all = false;
}

abbrev pub difficulty_claim : Pattern
difficulty_claim = record {
  source =
      "\\b(?:this|the|my)\\s+(?:request|task|prompt|query)\\s+(?:is|should be|must be)\\s+(?:scored|rated|graded|(?:classified|treated|considered)\\s+as\\s+(?:an?\\s+)?(?:very\\s+|extremely\\s+)?(?:complex|simple|hard|easy|difficult|trivial|expert|high|low)\\b)";
  ignore_case = true;
  dot_all = false;
}

abbrev pub model_dictation : Pattern
model_dictation = record {
  source =
      "\\b(?:route|send|forward|escalate)\\s+(?:me|my\\s+(?:request|task|prompt|query)|this\\s+(?:request|task|prompt|query))\\s+to\\s+(?:the\\s+|a\\s+)?(?:premium|pro|best|strongest|smartest|most expensive|cheapest|expert|top[- ]tier)\\s+(?:model|tier|llm)\\b|\\buse\\s+(?:your|the)\\s+(?:best|strongest|smartest|most expensive|premium|top[- ]tier)\\s+(?:model|tier)\\s+(?:for|on)\\s+(?:me|my\\s+\\w+)\\b";
  ignore_case = true;
  dot_all = false;
}

abbrev pub grader_address : Pattern
grader_address = record {
  source =
      "\\b(?:dear|hey|attention|note to|message (?:to|for))\\s+(?:the\\s+)?(?:ai|llm|verifier|scorer|grader|judge|evaluator)\\b";
  ignore_case = true;
  dot_all = false;
}

abbrev pub injection_rules : List Family
injection_rules =
    record { name = "instruction_override"; pattern = instruction_override }
    ∷ record { name = "role_hijack"; pattern = role_hijack }
    ∷ record { name = "role_marker"; pattern = role_marker }
    ∷ record { name = "delimiter_escape"; pattern = delimiter_escape }
    ∷ record { name = "schema_spoof"; pattern = schema_spoof }
    ∷ record { name = "score_dictation"; pattern = score_dictation }
    ∷ record { name = "difficulty_claim"; pattern = difficulty_claim }
    ∷ record { name = "model_dictation"; pattern = model_dictation }
    ∷ record { name = "grader_address"; pattern = grader_address }
    ∷ []
