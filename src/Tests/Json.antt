-- ===== src/Tests/Json.antt =====
-- The JSON reader at concrete texts.
use yllm.Base.Outcome.{done, fault}
use yllm.Base.Scan.{atoi}
use yllm.Base.Text.{codes, equal}
use yllm.Base.{◌≡◌, refl, some}
use yllm.Json.{
  json_find, json_parse, json_str, json_find_in_obj, find_path, find_index, find_field, field,
  scan_string, scan_nested, skip_values, json_str_unescape,
}

request :
    json_find (codes "{\"a\": [1, {\"b\" : \"x\"}], \"c\":2}") (codes "a.1.b")
    ≡ done (some (record { type = json_str; start = codes "x\"}], \"c\":2}"; len = 1 }))
unfolding json_find find_path json_find_in_obj find_field field scan_string json_parse scan_nested
    find_index skip_values equal atoi
request = refl

cut_object : json_find (codes "{\"stream_options\":") (codes "stream_options.include_usage") ≡ fault
unfolding json_find find_path json_find_in_obj find_field field scan_string json_parse scan_nested
    equal
cut_object = refl

unescape : json_str_unescape (codes "a\\n\\\"b\\") ≡ codes "a\n\"b\\"
unfolding json_str_unescape
unescape = refl
