-- ===== src/Migrations/Declared/Tables.antt =====
-- The entities of src/entities, one definition each, and a schema that has them all.
use order_lifecycle_backend.Prelude.{Bool, true, none, some, List, [], ◌∷◌, ◌&&◌, every}
use order_lifecycle_backend.Migrations.Schema.{
  plain, enum, cascade, restrict, primary_key, unique, foreign_key, EnumType, Schema, required,
  optional, defaulted,
}
use order_lifecycle_backend.Migrations.Declared.{
  Entity, primary_generated_uuid, text_column, uuid_column, int_column, timestamptz, date_column,
  indexed, has_entity, has_values,
}

abbrev pub user_entity : Entity
user_entity = record {
  table = "users";
  columns =
      primary_generated_uuid "id"
      ∷ text_column "email"
      ∷ text_column "password"
      ∷ defaulted "role" (enum "users_role_enum") "USER"
      ∷ defaulted "disabled" (plain "boolean") "false"
      ∷ date_column "createdAt"
      ∷ [];
  constraints = primary_key ("id" ∷ []) ∷ unique ("email" ∷ []) ∷ [];
  indexes = [];
}

abbrev pub refresh_token_entity : Entity
refresh_token_entity = record {
  table = "refresh_tokens";
  columns =
      primary_generated_uuid "id"
      ∷ uuid_column "userId"
      ∷ uuid_column "familyId"
      ∷ text_column "tokenHash"
      ∷ required "expiresAt" timestamptz
      ∷ defaulted "revoked" (plain "boolean") "false"
      ∷ date_column "createdAt"
      ∷ [];
  constraints = primary_key ("id" ∷ []) ∷ foreign_key "userId" "users" cascade ∷ [];
  indexes =
      indexed ("familyId" ∷ [])
      ∷ record { columns = "tokenHash" ∷ []; is_unique = true; predicate = none }
      ∷ [];
}

abbrev pub order_entity : Entity
order_entity = record {
  table = "orders";
  columns =
      primary_generated_uuid "id"
      ∷ uuid_column "userId"
      ∷ defaulted "status" (enum "orders_status_enum") "PENDING"
      ∷ optional "paymentInitiatedAt" timestamptz
      ∷ date_column "createdAt"
      ∷ date_column "updatedAt"
      ∷ [];
  constraints = primary_key ("id" ∷ []) ∷ foreign_key "userId" "users" cascade ∷ [];
  indexes = indexed ("userId" ∷ []) ∷ [];
}

abbrev pub order_item_entity : Entity
order_item_entity = record {
  table = "order_items";
  columns =
      primary_generated_uuid "id"
      ∷ uuid_column "orderId"
      ∷ uuid_column "productId"
      ∷ text_column "productName"
      ∷ int_column "quantity"
      ∷ [];
  constraints =
      primary_key ("id" ∷ [])
      ∷ foreign_key "orderId" "orders" cascade
      ∷ foreign_key "productId" "products" restrict
      ∷ [];
  indexes = indexed ("orderId" ∷ []) ∷ [];
}

abbrev pub processed_message_entity : Entity
processed_message_entity = record {
  table = "processed_messages";
  columns = text_column "messageId" ∷ text_column "consumer" ∷ date_column "processedAt" ∷ [];
  constraints = primary_key ("messageId" ∷ "consumer" ∷ []) ∷ [];
  indexes = [];
}

abbrev pub payment_authorization_entity : Entity
payment_authorization_entity = record {
  table = "payment_authorizations";
  columns =
      text_column "orderId"
      ∷ optional "authorized" (plain "boolean")
      ∷ optional "declineReason" (plain "character varying")
      ∷ date_column "createdAt"
      ∷ [];
  constraints = primary_key ("orderId" ∷ []) ∷ [];
  indexes = [];
}

abbrev pub metric_event_entity : Entity
metric_event_entity = record {
  table = "metric_events";
  columns =
      primary_generated_uuid "id"
      ∷ text_column "metric"
      ∷ required "value" (plain "double precision")
      ∷ optional "labels" (plain "jsonb")
      ∷ defaulted "recordedAt" timestamptz "now()"
      ∷ [];
  constraints = primary_key ("id" ∷ []) ∷ [];
  indexes = indexed ("metric" ∷ "recordedAt" ∷ []) ∷ [];
}

abbrev pub product_entity : Entity
product_entity = record {
  table = "products";
  columns =
      primary_generated_uuid "id"
      ∷ text_column "name"
      ∷ text_column "sku"
      ∷ int_column "stock"
      ∷ defaulted "active" (plain "boolean") "true"
      ∷ date_column "createdAt"
      ∷ date_column "updatedAt"
      ∷ [];
  constraints = primary_key ("id" ∷ []) ∷ unique ("sku" ∷ []) ∷ [];
  indexes = [];
}

abbrev pub cart_entity : Entity
cart_entity = record {
  table = "carts";
  columns =
      primary_generated_uuid "id"
      ∷ uuid_column "userId"
      ∷ optional "checkedOutAt" timestamptz
      ∷ date_column "createdAt"
      ∷ date_column "updatedAt"
      ∷ [];
  constraints = primary_key ("id" ∷ []) ∷ foreign_key "userId" "users" cascade ∷ [];
  indexes =
      indexed ("userId" ∷ [])
      ∷ record {
        columns = "userId" ∷ [];
        is_unique = true;
        predicate = some "checkedOutAt IS NULL";
      }
      ∷ [];
}

abbrev pub cart_item_entity : Entity
cart_item_entity = record {
  table = "cart_items";
  columns =
      primary_generated_uuid "id"
      ∷ uuid_column "cartId"
      ∷ uuid_column "productId"
      ∷ int_column "quantity"
      ∷ [];
  constraints =
      primary_key ("id" ∷ [])
      ∷ unique ("cartId" ∷ "productId" ∷ [])
      ∷ foreign_key "cartId" "carts" cascade
      ∷ foreign_key "productId" "products" cascade
      ∷ [];
  indexes = indexed ("cartId" ∷ []) ∷ [];
}

abbrev pub outbox_message_entity : Entity
outbox_message_entity = record {
  table = "outbox_messages";
  columns =
      uuid_column "id"
      ∷ text_column "exchange"
      ∷ text_column "routingKey"
      ∷ required "payload" (plain "jsonb")
      ∷ text_column "correlationId"
      ∷ defaulted "createdAt" timestamptz "now()"
      ∷ optional "publishedAt" timestamptz
      ∷ [];
  constraints = primary_key ("id" ∷ []) ∷ [];
  indexes = indexed ("publishedAt" ∷ "createdAt" ∷ []) ∷ [];
}

-- `entities` of the data source.
abbrev pub entities : List Entity
entities =
    user_entity ∷ refresh_token_entity ∷ order_entity ∷ processed_message_entity
    ∷ payment_authorization_entity ∷ metric_event_entity ∷ product_entity ∷ cart_entity
    ∷ cart_item_entity ∷ order_item_entity ∷ outbox_message_entity ∷ []

-- The values of OrderStatus and UserRole.
abbrev pub order_status_enum : EnumType
order_status_enum = record {
  name = "orders_status_enum";
  values = "PENDING" ∷ "RESERVED" ∷ "PAID" ∷ "COMPLETED" ∷ "FAILED" ∷ "CANCELLED" ∷ [];
}

abbrev pub user_role_enum : EnumType
user_role_enum = record { name = "users_role_enum"; values = "USER" ∷ "ADMIN" ∷ [] }

-- The schema that the app's queries are written for.
unfoldable pub fits_entities : Schema → Bool
fits_entities s =
    every (has_entity s) entities && has_values s order_status_enum && has_values s user_role_enum
