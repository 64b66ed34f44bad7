-- ===== src/Core/Message.antt =====
-- core/message.go: the messages of a conversation, and how they are written in a context. The cuts are of
-- bytes: a text is a string of bytes here.
use awesome_agent.Prelude.{
  ℕ, Option, none, some, List, [], ◌∷◌, ◌++◌, map, Text, codes, length, take, leb, ltb,
  if◌then◌else◌,
}
use awesome_agent.Go.Strings.{join}

-- ToolCall with its FunctionCall
pub record ToolCall : Type 0 where
  pub id : Text
  pub name : Text
  pub arguments : Text

pub data ContentType : Type 0 where
  text : ContentType
  image : ContentType
  audio : ContentType
  file : ContentType
  other : Text → ContentType

pub record ImageUrl : Type 0 where
  pub url : Text
  pub detail : Text

pub record InputAudio : Type 0 where
  pub data_of : Text
  pub format : Text

pub record FileContent : Type 0 where
  pub filename : Text
  pub data_of : Text

pub record ContentPart : Type 0 where
  pub type : ContentType
  pub text : Text
  pub image_url : Option ImageUrl
  pub input_audio : Option InputAudio
  pub file : Option FileContent

-- what Content holds; of a value of any other type, what %v prints
pub data Content : Type 0 where
  string : Text → Content
  parts : List ContentPart → Content
  nil : Content
  printed : Text → Content

-- without its time and its metadata
pub record Message : Type 0 where
  pub role : Text
  pub content : Content
  pub name : Text
  pub tool_calls : List ToolCall
  pub tool_call_id : Text

unfoldable pub new_text_content_part : Text → ContentPart
new_text_content_part s = record {
  type = ContentType.text;
  text = s;
  image_url = none;
  input_audio = none;
  file = none;
}

unfoldable pub new_image_content_part : ImageUrl → ContentPart
new_image_content_part i = record {
  type = ContentType.image;
  text = [];
  image_url = some i;
  input_audio = none;
  file = none;
}

unfoldable pub new_audio_content_part : InputAudio → ContentPart
new_audio_content_part a = record {
  type = ContentType.audio;
  text = [];
  image_url = none;
  input_audio = some a;
  file = none;
}

unfoldable pub new_file_content_part : FileContent → ContentPart
new_file_content_part f = record {
  type = ContentType.file;
  text = [];
  image_url = none;
  input_audio = none;
  file = some f;
}

unfoldable pub truncate : Text → ℕ → Text
truncate s most = if leb (length s) most then s else take most s ++ codes "..."

abbrev pub url_of : Option ImageUrl → Text
url_of none = []
url_of (some i) = truncate i.url 100

abbrev pub audio_of : Option InputAudio → Text × Text
audio_of none = ([], [])
audio_of (some a) = (a.format, truncate a.data_of 100)

abbrev pub file_of : Option FileContent → Text × Text
file_of none = ([], [])
file_of (some f) = (f.filename, truncate f.data_of 100)

abbrev pub two_words : Text → Text × Text → Text
two_words mark (a, b) = mark ++ (a ++ (codes " " ++ (b ++ codes "]")))

unfoldable pub format_as : ContentType → ContentPart → Text
unfolding truncate
format_as ContentType.text p = p.text
format_as ContentType.image p = codes "[image: " ++ (url_of p.image_url ++ codes "]")
format_as ContentType.audio p = two_words (codes "[audio: ") (audio_of p.input_audio)
format_as ContentType.file p = two_words (codes "[file: ") (file_of p.file)
format_as (other name) p = []

abbrev pub format : ContentPart → Text
format p = format_as p.type p

unfoldable pub format_content : Content → Text
unfolding format_as
format_content (string s) = s
format_content (parts ps) = join (codes " ") (map format ps)
format_content nil = []
format_content (printed s) = s

abbrev pub tagged : Text → Text → Text
tagged mark [] = []
tagged mark (c ∷ s) = mark ++ ((c ∷ s) ++ codes "]")

abbrev pub cut_arguments : Text → Text
cut_arguments s = if ltb 200 (length s) then take 200 s ++ codes "..." else s

abbrev pub show_call : ToolCall → Text
show_call call =
    codes " " ++ (call.name ++ (codes "(" ++ (cut_arguments call.arguments ++ codes ")")))

abbrev pub show_calls : List ToolCall → Text
show_calls [] = []
show_calls (call ∷ []) = show_call call
show_calls (call ∷ c ∷ cs) = show_call call ++ (codes "," ++ show_calls (c ∷ cs))

abbrev pub spaced : Text → Text
spaced [] = []
spaced (c ∷ s) = 32 ∷ c ∷ s

abbrev pub calls_tag : List ToolCall → Text
calls_tag [] = []
calls_tag (c ∷ cs) = codes " [tool_calls:" ++ (show_calls (c ∷ cs) ++ codes "]")

-- Message.String
unfoldable pub show_message : Message → Text
unfolding format_content
show_message m =
    codes "["
    ++ (m.role
        ++ (codes "]"
            ++ (tagged (codes "[call_id=") m.tool_call_id
                ++ (tagged (codes "[name=") m.name
                    ++ (spaced (format_content m.content) ++ calls_tag m.tool_calls)))))
