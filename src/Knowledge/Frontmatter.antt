-- ===== src/Knowledge/Frontmatter.antt =====
-- knowledge/frontmatter.py: a document is metadata between two fences and a body. `yaml.safe_load` is
-- a parameter, which raises a YAMLError or gives a value.
use lottie_orchestrator.Prelude.{
  Option, none, some, Bool, false, ◌&&◌, List, [], ◌∷◌, map, ◌==◌, if◌then◌else◌,
}
use lottie_orchestrator.Prelude.Texts.{Text, codes}
use lottie_orchestrator.Prelude.Walks.{text_eq, split_on}
use lottie_orchestrator.Session.Store.{join_lines}

pub data KnowledgeLayer : Type 0 where
  global platform project memory draft : KnowledgeLayer

pub data DocStatus : Type 0 where
  draft curated aging deprecated archived : DocStatus

pub record Document : Type 0 where
  pub id : Text
  pub source : Text
  pub layer : KnowledgeLayer
  pub content : Text
  pub frontmatter : List (Text × Text)
  pub tags : List Text
  pub depends_on : List Text
  pub status : DocStatus

abbrev pub starts_line : Text → Bool
starts_line [] = false
starts_line (c ∷ s) = c == 10

-- `.replace("\r\n", "\n")`
unfoldable pub unix : Text → Text
unix [] = []
unix (c ∷ s) = let rest = unix s in if c == 13 && starts_line s then rest else c ∷ rest

-- `.rstrip("\r")`
unfoldable pub rstrip_return : Text → Text
rstrip_return [] = []
rstrip_return (c ∷ s) =
    let rest = rstrip_return s in if c == 13 && text_eq rest [] then [] else c ∷ rest

abbrev pub fence : Text
fence = codes "---"

abbrev pub before_close : Text → Option (List Text × List Text) → Option (List Text × List Text)
before_close line none = none
before_close line (some (before, after)) = some (line ∷ before, after)

-- the lines before and behind the closing fence
unfoldable pub split_at_close : List Text → Option (List Text × List Text)
unfolding rstrip_return
split_at_close [] = none
split_at_close (line ∷ lines) =
    let rest = before_close line (split_at_close lines) in
    if text_eq (rstrip_return line) fence then some ([], lines) else rest

-- what follows the opening fence and its newline
unfoldable pub after_opener : Text → Option Text
after_opener (a ∷ b ∷ c ∷ d ∷ rest) =
    if a == b'-' && (b == b'-' && (c == b'-' && d == 10)) then some rest else none
after_opener _ = none

-- `.removeprefix("\n")`
unfoldable pub remove_newline : Text → Text
remove_newline [] = []
remove_newline (c ∷ s) = if c == 10 then s else c ∷ s

-- `safe_load` of a text, if it is a mapping; the keys are strings
module _ {V : Type 0} (load : Text → Option (List (Text × V))) where
  abbrev pub or_empty : Option (List (Text × V)) → List (Text × V)
  or_empty none = []
  or_empty (some meta) = meta

  abbrev pub parsed : Text → Option (List Text × List Text) → List (Text × V) × Text
  parsed text none = ([], text)
  parsed text (some (before, after)) =
      (or_empty (load (join_lines before)), remove_newline (join_lines after))

  abbrev pub opened : Text → Option Text → List (Text × V) × Text
  opened text none = ([], text)
  opened text (some rest) = parsed text (split_at_close (split_on 10 rest))

  -- `parse_frontmatter`
  unfoldable pub parse_frontmatter : Text → List (Text × V) × Text
  unfolding unix split_at_close after_opener remove_newline split_on
  parse_frontmatter text = opened (unix text) (after_opener (unix text))

-- what `to_document` asks of a value: whether it is None, a list or a string, and `str` of it
pub record Values (V : Type 0) : Type 0 where
  pub is_none : V → Bool
  pub as_list : V → Option (List V)
  pub as_string : V → Option Text
  pub str : V → Text

unfoldable pub get {ℓ} : {V : Type ℓ} → List (Text × V) → Text → Option V
get [] key = none
get ((k, v) ∷ meta) key = let rest = get meta key in if text_eq k key then some v else rest

-- `DocStatus(raw_status)`, or the draft where it raises
unfoldable pub status_of : Text → DocStatus
status_of s =
    if text_eq s (codes "curated")
    then DocStatus.curated
    else if text_eq s (codes "aging")
    then DocStatus.aging
    else if text_eq s (codes "deprecated")
    then DocStatus.deprecated
    else if text_eq s (codes "archived")
    then DocStatus.archived
    else DocStatus.draft

module _ {V : Type 0} (values : Values V) where
  abbrev pub id_or : Text → Option V → Text
  id_or stem none = stem
  id_or stem (some v) = if values.is_none v then stem else values.str v

  abbrev pub each_string : Option (List V) → List Text
  each_string none = []
  each_string (some vs) = map values.str vs

  abbrev pub strings : Option V → List Text
  strings none = []
  strings (some v) = each_string (values.as_list v)

  abbrev pub status_or_draft : Option Text → DocStatus
  status_or_draft none = DocStatus.draft
  status_or_draft (some s) = status_of s

  abbrev pub status_from : Option V → DocStatus
  status_from none = DocStatus.draft
  status_from (some v) = status_or_draft (values.as_string v)

  -- `to_document`, of a path with its stem
  unfoldable pub to_document :
      (Text → Option (List (Text × V))) → Text → Text → KnowledgeLayer → Text → Document
  unfolding parse_frontmatter get status_of
  to_document load path stem layer raw =
      let (meta, body) = parse_frontmatter load raw in
      record {
        id = id_or stem (get meta (codes "id"));
        source = path;
        layer = layer;
        content = body;
        frontmatter = map (λ p. (p.0, values.str p.1)) meta;
        tags = strings (get meta (codes "tags"));
        depends_on = strings (get meta (codes "depends_on"));
        status = status_from (get meta (codes "status"));
      }

-- `KnowledgeLayer.value`
unfoldable pub layer_value : KnowledgeLayer → Text
layer_value KnowledgeLayer.global = codes "global"
layer_value KnowledgeLayer.platform = codes "platform"
layer_value KnowledgeLayer.project = codes "project"
layer_value KnowledgeLayer.memory = codes "memory"
layer_value KnowledgeLayer.draft = codes "draft"
