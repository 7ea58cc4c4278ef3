-- ===== src/Security/Markers.antt =====
-- security/injection_scanner.py, `_RULES`: the table of patterns, as they are handed to `re`.
use lottie_orchestrator.Prelude.{String, List, [], ◌∷◌}

-- the flags of `re.compile`
pub data Flag : Type 0 where
  ignore_case multiline dotall : Flag

-- `_Rule`, with the pattern as its source text and flags
pub record Rule : Type 0 where
  pub label : String
  pub pattern : String
  pub flags : List Flag

rule : String → String → List Flag → Rule
rule label pattern flags = record { label = label; pattern = pattern; flags = flags }

-- `_RULES`
unfoldable pub rules : List Rule
unfolding rule
rules =
    rule "instruction-override/ignore-previous" "ignore\\s+(all\\s+)?previous\\s+instructions"
      (ignore_case ∷ [])
    ∷ rule "instruction-override/disregard-above"
        "disregard\\s+(?:the\\s+)?(?:above|prior|previous|earlier|all\\s+prior)\\b"
        (ignore_case ∷ [])
    ∷ rule "instruction-override/forget-everything" "forget\\s+(all|everything)\\s+(you|above)"
        (ignore_case ∷ [])
    ∷ rule "role-override/you-are-now" "\\byou\\s+are\\s+now\\s+(?:a|an)\\s+\\w+" (ignore_case ∷ [])
    ∷ rule "role-override/act-as"
        "\\bact\\s+as\\s+(?:a|an)\\s+(?:new\\s+|different\\s+|separate\\s+)?(?:ai|assistant|model|llm|bot|persona|user|developer|admin)\\b"
        (ignore_case ∷ [])
    ∷ rule "role-override/system-prompt-phrase"
        "(?:show|print|reveal|dump|leak|return|output|ignore|override|repeat|expose)\\b[^.\\n]*\\bsystem\\s+prompt\\b|\\bsystem\\s+prompt\\s+(?:is|was|will\\s+be)\\s+(?:hidden|secret|confidential)\\b"
        (ignore_case ∷ [])
    ∷ rule "role-override/fake-role-tag" "</?(?:system|assistant)>" (ignore_case ∷ [])
    ∷ rule "role-override/chat-template-token" "<\\|[^|>\\n]{1,32}\\|>" ([])
    ∷ rule "role-override/role-prefix-line" "^[ \\t]*(?:system|assistant)[ \\t]*:[ \\t]*\\S"
        (ignore_case ∷ multiline ∷ [])
    ∷ rule "role-override/jailbreak-mode" "\\b(?:developer|debug|god|jailbreak|dan)\\s+mode\\b"
        (ignore_case ∷ [])
    ∷ rule "exfiltration/reveal-prompt" "reveal\\s+(your\\s+)?(system\\s+)?prompt"
        (ignore_case ∷ [])
    ∷ rule "exfiltration/print-instructions" "\\bprint\\s+your\\s+instructions\\b"
        (ignore_case ∷ [])
    ∷ rule "exfiltration/exfiltrate" "\\bexfiltrate\\b" (ignore_case ∷ [])
    ∷ rule "exfiltration/send-to-http" "send\\s+.{0,200}?\\bto\\s+https?://"
        (ignore_case ∷ dotall ∷ [])
    ∷ rule "data-control/begin-injection" "BEGIN\\s+INJECTION" (ignore_case ∷ [])
    ∷ rule "data-control/end-injection" "END\\s+INJECTION" (ignore_case ∷ [])
    ∷ []
