-- ===== src/Egress/Catalog.antt =====
-- internal/egress/catalog.go: the endpoints of the program.
use nomadposting.Prelude.{List, [], ◌∷◌, Str, text}
use nomadposting.Egress.Types.{Endpoint}

abbrev endpoint : (id country_code provider region : Str) → Endpoint
endpoint id country_code provider region = record {
  id = id;
  country_code = country_code;
  provider = provider;
  region = region;
}

abbrev pub default_endpoint_catalog : List Endpoint
default_endpoint_catalog =
    endpoint (text "aws-fr-1") (text "FR") (text "aws") (text "eu-west-3")
    ∷ endpoint (text "gcp-fr-1") (text "FR") (text "gcp") (text "europe-west9")
    ∷ endpoint (text "aws-de-1") (text "DE") (text "aws") (text "eu-central-1")
    ∷ endpoint (text "gcp-de-1") (text "DE") (text "gcp") (text "europe-west3")
    ∷ endpoint (text "aws-gb-1") (text "GB") (text "aws") (text "eu-west-2")
    ∷ endpoint (text "gcp-gb-1") (text "GB") (text "gcp") (text "europe-west2")
    ∷ endpoint (text "aws-se-1") (text "SE") (text "aws") (text "eu-north-1")
    ∷ endpoint (text "gcp-se-1") (text "SE") (text "gcp") (text "europe-north2")
    ∷ endpoint (text "aws-ch-1") (text "CH") (text "aws") (text "eu-central-2")
    ∷ endpoint (text "gcp-ch-1") (text "CH") (text "gcp") (text "europe-west6")
    ∷ []
