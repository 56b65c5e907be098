-- ===== src/Http/Catalogue.antt =====
-- internal/httpapi/catalogue.go: the routes as the explorer shows them.
use keymaker.Prelude.{Bool, List, map}
use keymaker.Text.{Text}
use keymaker.Credential.{Instant}
use keymaker.Catalog.{Operation, Route, Snapshot, rule_path, parameterised}
use keymaker.Http.Replies.{Reply, answered}

pub record CatalogueOperation : Type 0 where
  pub method : Text
  pub description : Text
  pub deprecated : Bool

pub record CatalogueRoute : Type 0 where
  pub path : Text
  pub rule : Text
  pub wildcard : Bool
  pub operations : List CatalogueOperation

pub record CatalogueResponse : Type 0 where
  pub live : Bool
  pub taken : Instant
  pub branches : List Text
  pub routes : List CatalogueRoute

unfoldable pub describe_operation : Operation → CatalogueOperation
describe_operation op = record {
  method = op.method;
  description = op.description;
  deprecated = op.deprecated;
}

unfoldable pub describe_route : Route → CatalogueRoute
unfolding describe_operation
describe_route route = record {
  path = route.path;
  rule = rule_path route.path;
  wildcard = parameterised route.path;
  operations = map describe_operation route.operations;
}

-- `GET /api/catalogue`
unfoldable pub catalogue : Snapshot → Reply CatalogueResponse
unfolding describe_route
catalogue snapshot = answered (record {
  live = snapshot.live;
  taken = snapshot.taken;
  branches = snapshot.branches;
  routes = map describe_route snapshot.routes;
})
