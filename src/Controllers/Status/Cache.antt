-- ===== src/Controllers/Status/Cache.antt =====
-- The configuration of Yatai is read once.
use yatai_deployment.Base.{Option, ok, ◌≡◌, arith}
use yatai_deployment.Base.Effect.{World}
use yatai_deployment.Api.Consts.{Consts}
use yatai_deployment.Controllers.Status.{
  YataiLib, YataiClient, remember_conf, read_conf, get_conf, get_yatai_client,
}

module _ {S : Type 0} (lib : YataiLib S) (c : Consts) where
  -- After a call of `getYataiClient` that returned without an error, every later call returns the same,
  -- whatever has become of the configuration in the cluster, as long as a clientset can be made.
  pub get_yatai_client-cached :
      (w w' : World S) (found : Option YataiClient) (later : S)
      → get_yatai_client lib c w ≡ (ok found, w')
      → (lib.new_for_config later).0 ≡ ok tt
      → (get_yatai_client lib c (record w' { cluster = later })).0 ≡ ok found
  unfolding get_yatai_client get_conf read_conf remember_conf
  get_yatai_client-cached w w' found later h made = ground arith
