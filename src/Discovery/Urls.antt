-- ===== src/Discovery/Urls.antt =====
-- pkg/discovery/privacy.go: `SanitizeURL`, `URLHost` and `IsCloudMetadataHost`. What they ask of net/url,
-- net and strings is a record of parameters.
use barrikade_lens.Common.{
  Bool, false, ◌||◌, not, ◌&&◌, String, Option, none, some, ◌==◌, if◌then◌else◌,
}
use barrikade_lens.Discovery.Privacy.{trim_space, trim_dot}

-- net/url.URL
pub record ParsedUrl : Type 0 where
  pub scheme : String
  pub opaque : String
  pub user : Option String
  pub host : String
  pub path : String
  pub raw_path : String
  pub omit_host : Bool
  pub force_query : Bool
  pub raw_query : String
  pub fragment : String
  pub raw_fragment : String

-- What net.IP tells of an address.
pub record Ip : Type 0 where
  pub printed : String
  pub is_link_local_unicast : Bool

-- strings.ToLower, url.Parse, URL.String, URL.Hostname, net.ParseIP and IP.Equal
pub record UrlLibrary : Type 0 where
  pub to_lower : String → String
  pub parse_url : String → Option ParsedUrl
  pub print_url : ParsedUrl → String
  pub hostname : ParsedUrl → String
  pub parse_ip : String → Option Ip
  pub same_ip : Ip → Option Ip → Bool

bare : ParsedUrl → ParsedUrl
bare url = record url { user = none; raw_query = ""; force_query = false; fragment = "" }

module _ (lib : UrlLibrary) where
  sanitized : ParsedUrl → Option String
  unfolding bare
  sanitized url =
      if url.scheme == "" || url.host == ""
      then none
      else if not (url.scheme == "http") && not (url.scheme == "https")
      then none
      else some (lib.print_url (bare url))

  -- SanitizeURL; `none` is an error
  unfoldable pub sanitize_url : String → Option String
  unfolding sanitized
  sanitize_url raw = elim (lib.parse_url (trim_space raw)) [
    | none ↦ none
    | some url ↦ sanitized url
  ]

  -- URLHost
  unfoldable pub url_host : String → String
  url_host raw = elim (lib.parse_url raw) [
    | none ↦ ""
    | some url ↦ trim_dot (lib.to_lower (lib.hostname url))
  ]

  metadata_ip : Option Ip → Bool
  metadata_ip none = false
  metadata_ip (some ip) =
      lib.same_ip ip (lib.parse_ip "169.254.169.254") || ip.is_link_local_unicast

  -- IsCloudMetadataHost
  unfoldable pub is_cloud_metadata_host : String → Bool
  unfolding metadata_ip
  is_cloud_metadata_host host =
      let name = lib.to_lower (trim_space host) in
      name == "metadata.google.internal"
      || name == "metadata.azure.internal"
      || name == "100.100.100.200"
      || metadata_ip (lib.parse_ip name)
