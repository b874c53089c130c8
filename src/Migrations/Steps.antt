-- ===== src/Migrations/Steps.antt =====
-- The other migrations of src/database/migrations: metric events and the claim of a payment, the
-- outbox, the families of refresh tokens, the pending authorization, products on sale, and one
-- open cart for each user; and the list of all (index.ts).
use order_lifecycle_backend.Migrations.Initial.{initial_schema}
use order_lifecycle_backend.Migrations.Shopping.{add_carts}
use order_lifecycle_backend.Prelude.{true, false, none, some, List, [], ◌∷◌}
use order_lifecycle_backend.Migrations.Schema.{
  Migration, plain, primary_key, create_table, drop_table, create_index, drop_index, add_column,
  drop_column, drop_default, drop_not_null, set_not_null, delete_rows, required, optional,
  defaulted,
}

abbrev pub add_metric_events : Migration
add_metric_events = record {
  name = "AddMetricEventsAndPaymentInitiatedAt1782907200000";
  up =
      create_table record {
        name = "metric_events";
        columns =
            defaulted "id" (plain "uuid") "uuid_generate_v4()"
            ∷ required "metric" (plain "character varying")
            ∷ required "value" (plain "double precision")
            ∷ optional "labels" (plain "jsonb")
            ∷ defaulted "recordedAt" (plain "TIMESTAMP WITH TIME ZONE") "now()"
            ∷ [];
        constraints = record { name = "PK_metric_events_id"; kind = primary_key ("id" ∷ []) } ∷ [];
      }
      ∷ create_index record {
        name = "IDX_metric_events_metric_recordedAt";
        table = "metric_events";
        columns = "metric" ∷ "recordedAt" ∷ [];
        is_unique = false;
        predicate = none;
      }
      ∷ add_column "orders" (optional "paymentInitiatedAt" (plain "TIMESTAMP WITH TIME ZONE"))
      ∷ [];
  down =
      drop_column "orders" "paymentInitiatedAt"
      ∷ drop_index "IDX_metric_events_metric_recordedAt"
      ∷ drop_table "metric_events"
      ∷ [];
}

abbrev pub add_outbox_messages : Migration
add_outbox_messages = record {
  name = "AddOutboxMessages1782920000000";
  up =
      create_table record {
        name = "outbox_messages";
        columns =
            required "id" (plain "uuid")
            ∷ required "exchange" (plain "character varying")
            ∷ required "routingKey" (plain "character varying")
            ∷ required "payload" (plain "jsonb")
            ∷ required "correlationId" (plain "character varying")
            ∷ defaulted "createdAt" (plain "TIMESTAMP WITH TIME ZONE") "now()"
            ∷ optional "publishedAt" (plain "TIMESTAMP WITH TIME ZONE")
            ∷ [];
        constraints =
            record { name = "PK_outbox_messages_id"; kind = primary_key ("id" ∷ []) } ∷ [];
      }
      ∷ create_index record {
        name = "IDX_outbox_messages_publishedAt_createdAt";
        table = "outbox_messages";
        columns = "publishedAt" ∷ "createdAt" ∷ [];
        is_unique = false;
        predicate = none;
      }
      ∷ [];
  down = drop_index "IDX_outbox_messages_publishedAt_createdAt" ∷ drop_table "outbox_messages" ∷ [];
}

abbrev pub add_refresh_token_family : Migration
add_refresh_token_family = record {
  name = "AddRefreshTokenFamily1782930000000";
  up =
      add_column "refresh_tokens" (defaulted "familyId" (plain "uuid") "uuid_generate_v4()")
      ∷ drop_default "refresh_tokens" "familyId"
      ∷ create_index record {
        name = "IDX_refresh_tokens_familyId";
        table = "refresh_tokens";
        columns = "familyId" ∷ [];
        is_unique = false;
        predicate = none;
      }
      ∷ [];
  down = drop_index "IDX_refresh_tokens_familyId" ∷ drop_column "refresh_tokens" "familyId" ∷ [];
}

abbrev pub payment_authorization_claim : Migration
payment_authorization_claim = record {
  name = "PaymentAuthorizationClaim1782940000000";
  up = drop_not_null "payment_authorizations" "authorized" ∷ [];
  down =
      delete_rows "payment_authorizations" ("authorized IS NULL" ∷ [])
      ∷ set_not_null "payment_authorizations" "authorized"
      ∷ [];
}

abbrev pub add_product_active : Migration
add_product_active = record {
  name = "AddProductActive1782950000000";
  up = add_column "products" (defaulted "active" (plain "boolean") "true") ∷ [];
  down = drop_column "products" "active" ∷ [];
}

abbrev pub one_open_cart_per_user : Migration
one_open_cart_per_user = record {
  name = "OneOpenCartPerUser1782960000000";
  up =
      delete_rows "carts" (
        "c.userId = newer.userId" ∷ "c.checkedOutAt IS NULL" ∷ "newer.checkedOutAt IS NULL"
        ∷ "(c.createdAt, c.id) < (newer.createdAt, newer.id)" ∷ [])
      ∷ create_index record {
        name = "UQ_carts_open_per_user";
        table = "carts";
        columns = "userId" ∷ [];
        is_unique = true;
        predicate = some "checkedOutAt IS NULL";
      }
      ∷ [];
  down = drop_index "UQ_carts_open_per_user" ∷ [];
}

-- The list `migrations`.
abbrev pub migrations : List Migration
migrations =
    initial_schema ∷ add_metric_events ∷ add_carts ∷ add_outbox_messages ∷ add_refresh_token_family
    ∷ payment_authorization_claim ∷ add_product_active ∷ one_open_cart_per_user ∷ []
