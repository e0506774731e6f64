-- ===== src/Examples/Formats.antt =====
-- Theorems about the formats, at concrete inputs.
use sub_hub.Common.{
  map, ◌∷◌, ascii_lower, text_eq, [], ◌≡◌, refl, none, some, true, lit, retain, List, Text, join,
  arith,
}
use sub_hub.Parse.Document.Steps.{have_ports}
use sub_hub.Model.Proxy.{ss_method_value, is_exportable, trojan, Proxy, vless, new, as_str}
use sub_hub.Export.Plugin.{ss_method}
use sub_hub.Export.Surge.Lines.{line_of, to_surge, surge_lines}
use sub_hub.Export.Surge.Total.{LinesKept, to_surge_total}
use sub_hub.Export.Surge.OneLine.{one_line, raw_one_line, is_one_line, line_of-is_one_line}
use sub_hub.Export.V2ray.{to_v2ray_json}
use sub_hub.Export.V2ray.Stream.{carries, secures}
use sub_hub.Export.V2ray.Reimport.{V2rayCarried, parse_v2ray_json-to_v2ray_json}
use sub_hub.Parse.V2ray.{parse_v2ray_json}
use sub_hub.Export.V2ray.Kept.{V2rayKeeps}
use sub_hub.Parse.Uri.{Codecs}
use sub_hub.Model.Json.{object, member, end, array, items}
use sub_hub.Export.Clash.{to_clash_meta}
use sub_hub.Parse.Document.{parse_clash_yaml, parse_subscription}
use sub_hub.Parse.Document.Ports.{parse_subscription-have_ports}
use sub_hub.Model.Fingerprint.{fingerprint}
use sub_hub.Parse.Fields.{Doubles}
use sub_hub.Export.Clash.Entries.{transport_carries}
use sub_hub.Export.Clash.Reimport.{ClashKeeps, ClashCarried, parse_clash_yaml-to_clash_meta}
use sub_hub.Examples.Samples.{ascii}

abbrev pub doubles : Doubles
doubles = record {
  parse = λ t. none;
  mul = λ x y. x;
  max = λ x y. x;
  round = λ x. 0;
  whole = λ x. none;
  truncate = λ x. 0;
  display = λ x. [];
}

abbrev web_socket : Proxy
web_socket = record (new (lit "a") vless (lit "h.example") 443) {
  uuid = some (lit "id");
  network = some (lit "ws");
  path = some (lit "/x");
  host = some (lit "cdn.example");
  tls = some true;
}

-- A REALITY node over gRPC.
abbrev over_grpc : Proxy
over_grpc = record (new (lit "b") vless (lit "h.example") 8443) {
  uuid = some (lit "id");
  network = some (lit "grpc");
  service_name = some (lit "svc");
  tls = some true;
  sni = some (lit "www.example");
  reality = true;
  reality_public_key = some (lit "pk");
  reality_short_id = some (lit "01");
}

parse_v2ray_json-to_v2ray_json_example :
    map fingerprint (parse_v2ray_json doubles (to_v2ray_json (over_grpc ∷ web_socket ∷ [])))
    ≡ map fingerprint (over_grpc ∷ web_socket ∷ [])
unfolding V2rayCarried V2rayKeeps carries secures text_eq
parse_v2ray_json-to_v2ray_json_example =
    parse_v2ray_json-to_v2ray_json doubles (over_grpc ∷ web_socket ∷ [])
      ((refl, (refl, refl), refl, refl), ((refl, (refl, refl), refl, refl), tt))

-- Libraries that decode nothing.
abbrev codecs : Codecs
codecs = record {
  decode_percent = λ s. s;
  standard = λ s. none;
  standard_no_pad = λ s. none;
  url_safe = λ s. none;
  url_safe_no_pad = λ s. none;
  from_utf8_lossy = λ b. b;
  json = λ s. none;
  yaml = λ s. none;
  doubles = doubles;
  unicode = ascii;
}

-- A VLESS node with REALITY.
abbrev hidden : Proxy
hidden = record web_socket {
  reality = true;
  reality_public_key = some (lit "k");
  reality_short_id = some (lit "0a");
}

-- A parser that gives the configuration of two nodes, one of which cannot be exported.
abbrev yaml_codecs : Codecs
yaml_codecs = record codecs {
  yaml = λ s. some (
      object (
        member (lit "proxies")
          (array (items (to_clash_meta (hidden ∷ new (lit "c") trojan (lit "h.example") 443 ∷ []))))
          end));
}

parse_clash_yaml-to_clash_meta_example :
    map fingerprint (parse_clash_yaml yaml_codecs [])
    ≡ map fingerprint
        (retain is_exportable (hidden ∷ new (lit "c") trojan (lit "h.example") 443 ∷ []))
unfolding ClashCarried ClashKeeps transport_carries text_eq as_str ascii_lower
parse_clash_yaml-to_clash_meta_example =
    parse_clash_yaml-to_clash_meta yaml_codecs []
      (hidden ∷ new (lit "c") trojan (lit "h.example") 443 ∷ []) refl
      ((refl, refl, (refl, refl, refl, refl)), ((refl, refl, refl), tt))

parse_subscription-have_ports_example :
    have_ports
      (parse_subscription codecs (lit "trojan://pw@h.example:443#a\nss://m:p@h.example:0\n"))
    ≡ true
parse_subscription-have_ports_example =
    parse_subscription-have_ports codecs (lit "trojan://pw@h.example:443#a\nss://m:p@h.example:0\n")

-- A name with a line break and a comma, as it is written for Surge.
abbrev spread : Proxy
spread = record (new (lit "a\nb,c") trojan (lit "h.example") 443) { password = some (lit "pw") }

line_of-is_one_line_example : is_one_line (line_of trojan spread) ≡ true
unfolding raw_one_line one_line ss_method ss_method_value
line_of-is_one_line_example = line_of-is_one_line trojan spread refl

to_surge_total_example :
    (ms : List Text) × (to_surge (spread ∷ spread ∷ []) ≡ some (join 10 ms))
    × LinesKept [] (surge_lines (spread ∷ spread ∷ [])) ms
to_surge_total_example = to_surge_total (spread ∷ spread ∷ []) (omega arith)
