-- ===== src/Conversion/Names.antt =====
-- `GetBentoNameFromBentoTag` and `ConvertToBentoRequest` of
-- apis/serving/v1alpha3/bentodeployment_conversion.go.
use Prim.Native.String.{slice}
use yatai_deployment.Base.{
  ℕ, ◌≤◌, String, len, List, [], none, ◌≡◌, arith, length, len-append, ltb, ◌<>◌, if◌then◌else◌,
  replace_all,
}
use yatai_deployment.Hash.{hash, len-hash}
use yatai_deployment.Api.Resources.{BentoRequest}
use yatai_deployment.Api.V1alpha3.{BentoDeployment}

-- The text functions that the program does not implement: `strcase.ToKebab`, `xstrings.Partition`
-- (head, separator, tail), and the MD5 sum.
pub record TextLib : Type 0 where
  pub to_kebab : String → String
  pub partition : String → String → String × String × String
  pub md5_sum : String → List ℕ

module _ (lib : TextLib) where
  -- The name for a tag whose kebab form is too long.
  short_name : String → String
  unfolding hash
  short_name bento_tag =
      let bento_name = "bento-" <> hash lib.md5_sum bento_tag in
      if ltb 63 (len bento_name) then slice bento_name 0 63 else bento_name

  unfoldable pub get_bento_name_from_bento_tag : String → String
  unfolding short_name replace_all
  get_bento_name_from_bento_tag bento_tag =
      let bento_name = replace_all (lib.to_kebab bento_tag) ":" "--" in
      if ltb 63 (len bento_name) then short_name bento_tag else bento_name

  unfoldable pub convert_to_bento_request : BentoDeployment → BentoRequest
  unfolding get_bento_name_from_bento_tag
  convert_to_bento_request src = record {
    meta = record {
      name = get_bento_name_from_bento_tag src.spec.bento_tag;
      namespace = src.meta.namespace;
      uid = "";
      resource_version = "";
      labels = none;
      annotations = none;
      owner_references = [];
    };
    spec = record { bento_tag = src.spec.bento_tag; overrides = [] };
    conditions = [];
  }

module _ (lib : TextLib) (sixteen : (t : String) → length (lib.md5_sum t) ≡ 16) where
  short_name-le : (tag : String) → len (short_name lib tag) ≤ 63
  unfolding short_name
  short_name-le tag =
      ground (arith, len-append "bento-" (hash lib.md5_sum tag), len-hash lib.md5_sum sixteen tag)

  -- The name of the BentoRequest for a tag fits a DNS label: it has at most 63 bytes.
  pub get_bento_name_from_bento_tag-le :
      (tag : String) → len (get_bento_name_from_bento_tag lib tag) ≤ 63
  unfolding get_bento_name_from_bento_tag
  get_bento_name_from_bento_tag-le tag = ground (arith, short_name-le tag)
