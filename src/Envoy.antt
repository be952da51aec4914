-- ===== src/Envoy.antt =====
-- utils/envoy.go: the configuration of the Envoy proxy beside the API server, which sends requests with
-- the debug header to one server and all others to another.
use yatai_deployment.Base.{ℕ, String, List, [], ◌∷◌, Result, ok, ◌<>◌, join, trim_space}
use yatai_deployment.Base.Int.{ℤ}
use yatai_deployment.Decimal.{decimal, decimal_int}

abbrev envoy_admin_port : ℕ
envoy_admin_port = 9901

pub record CreateEnvoyConfig : Type 0 where
  pub listen_port : ℕ
  pub debug_header_name : String
  pub debug_header_value : String
  pub debug_server_address : String
  pub debug_server_port : ℤ
  pub production_server_address : String
  pub production_server_port : ℤ

-- `configTemplate` with the values filled in, by its lines.
config_lines : CreateEnvoyConfig → List String
unfolding decimal decimal_int
config_lines config =
    ""
    ∷ "static_resources:"
    ∷ "  listeners:"
    ∷ "  - name: listener_0"
    ∷ "    address:"
    ∷ "      socket_address:"
    ∷ "        address: 0.0.0.0"
    ∷ ("        port_value: " <> decimal config.listen_port)
    ∷ ""
    ∷ "    filter_chains:"
    ∷ "    - filters:"
    ∷ "      - name: envoy.filters.network.http_connection_manager"
    ∷ "        typed_config:"
    ∷ "          \"@type\": type.googleapis.com/envoy.extensions.filters.network.http_connection_manager.v3.HttpConnectionManager"
    ∷ "          stat_prefix: ingress_http"
    ∷ "          access_log:"
    ∷ "          - name: envoy.access_loggers.stdout"
    ∷ "            typed_config:"
    ∷ "              \"@type\": type.googleapis.com/envoy.extensions.access_loggers.stream.v3.StdoutAccessLog"
    ∷ "          http_filters:"
    ∷ "          - name: envoy.filters.http.router"
    ∷ "            typed_config:"
    ∷ "              \"@type\": type.googleapis.com/envoy.extensions.filters.http.router.v3.Router"
    ∷ "          route_config:"
    ∷ "            name: local_route"
    ∷ "            virtual_hosts:"
    ∷ "            - name: backend"
    ∷ "              domains: [\"*\"]"
    ∷ "              routes:"
    ∷ "              - match:"
    ∷ "                  prefix: \"/\""
    ∷ "                  headers:"
    ∷ ("                    - name: \"" <> (config.debug_header_name <> "\""))
    ∷ ("                      exact_match: \"" <> (config.debug_header_value <> "\""))
    ∷ "                route:"
    ∷ "                  cluster: service_debug"
    ∷ "              - match:"
    ∷ "                  prefix: \"/\""
    ∷ "                route:"
    ∷ "                  cluster: service_production"
    ∷ ""
    ∷ "  clusters:"
    ∷ "  - name: service_debug"
    ∷ "    connect_timeout: 0.25s"
    ∷ "    type: strict_dns"
    ∷ "    dns_lookup_family: v4_only"
    ∷ "    lb_policy: round_robin"
    ∷ "    load_assignment:"
    ∷ "      cluster_name: service_debug"
    ∷ "      endpoints:"
    ∷ "      - lb_endpoints:"
    ∷ "        - endpoint:"
    ∷ "            address:"
    ∷ "              socket_address:"
    ∷ ("                address: " <> config.debug_server_address)
    ∷ ("                port_value: " <> decimal_int config.debug_server_port)
    ∷ ""
    ∷ "  - name: service_production"
    ∷ "    connect_timeout: 0.25s"
    ∷ "    type: strict_dns"
    ∷ "    dns_lookup_family: v4_only"
    ∷ "    lb_policy: round_robin"
    ∷ "    load_assignment:"
    ∷ "      cluster_name: service_production"
    ∷ "      endpoints:"
    ∷ "      - lb_endpoints:"
    ∷ "        - endpoint:"
    ∷ "            address:"
    ∷ "              socket_address:"
    ∷ ("                address: " <> config.production_server_address)
    ∷ ("                port_value: " <> decimal_int config.production_server_port)
    ∷ ""
    ∷ "admin:"
    ∷ "    access_log_path: /dev/null"
    ∷ "    address:"
    ∷ "        socket_address:"
    ∷ "            address: 127.0.0.1"
    ∷ ("            port_value: " <> decimal envoy_admin_port)
    ∷ ""
    ∷ []

unfoldable pub generate_envoy_configuration_content : CreateEnvoyConfig → Result String
unfolding config_lines join trim_space
generate_envoy_configuration_content config = ok (trim_space (join "\n" (config_lines config)))
