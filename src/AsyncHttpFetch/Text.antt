-- ===== src/AsyncHttpFetch/Text.antt =====
-- The text of a request, line by line.
use mathlib.Core.List.{flatten}
use atscppapi.Common.{
  Bytes, codes, ◌≡◌, ap, sym, ◌∙◌, ◌++◌, List, [], ◌∷◌, map, append_assoc, append-nil,
}
use atscppapi.HttpMethod.{HttpMethod, http_method_strings}
use atscppapi.HttpVersion.{HttpVersion, http_version_strings}
use atscppapi.Headers.State.{NameValuesMap}
use atscppapi.Headers.Values.{joined_values}
use atscppapi.Headers.Joined.{intercalate, drop_empty, joined_values-intercalate}
use atscppapi.AsyncHttpFetch.{crlf, header_lines, request_text}

-- A line of a request, and the line of a header: its name and its values with commas between.
abbrev pub line : Bytes → Bytes
line text = text ++ crlf

abbrev pub header_line : Bytes × List Bytes → Bytes
header_line (name, values) = line (name ++ codes ": " ++ intercalate 44 (drop_empty values))

header_lines-flatten :
    (hs : NameValuesMap) (s : Bytes) → header_lines hs s ≡ s ++ flatten (map header_line hs)
unfolding header_lines flatten
header_lines-flatten [] s = sym (append-nil s)
header_lines-flatten ((name, values) ∷ hs) s =
    header_lines-flatten hs (s ++ name ++ codes ": " ++ joined_values values 44 ++ crlf)
    ∙ rw (joined_values-intercalate values 44) (simp append_assoc)

flatten-last : (ls : List Bytes) (l : Bytes) → flatten (ls ++ l ∷ []) ≡ flatten ls ++ l
unfolding flatten
flatten-last [] l = append-nil l
flatten-last (k ∷ ls) l = ap (λ d. k ++ d) (flatten-last ls l) ∙ sym (append_assoc k (flatten ls) l)

-- The request is its request line, one line for each header, with the values joined by commas, and
-- an empty line, all ended by CR LF.
pub request_text-flatten :
    (method : HttpMethod) (url : Bytes) (version : HttpVersion) (headers : NameValuesMap)
    → request_text method url version headers
      ≡ flatten (
          line (
            http_method_strings method
            ++ codes " "
            ++ url
            ++ codes " "
            ++ http_version_strings version)
          ∷ (map header_line headers ++ line [] ∷ []))
unfolding request_text flatten
request_text-flatten method url version headers =
    let first = line (
      http_method_strings method
      ++ codes " "
      ++ url
      ++ codes " "
      ++ http_version_strings version) in
    ap (λ d. d ++ crlf) (header_lines-flatten headers first)
    ∙ append_assoc first (flatten (map header_line headers)) crlf
    ∙ ap (λ d. first ++ d) (sym (flatten-last (map header_line headers) (line [])))
