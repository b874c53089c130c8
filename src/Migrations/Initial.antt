-- ===== src/Migrations/Initial.antt =====
-- The first migration (src/database/migrations/1782896581863-InitialSchema.ts): users, refresh
-- tokens, orders, the inbox and the payment ledger.
use order_lifecycle_backend.Prelude.{true, false, none, [], ◌∷◌}
use order_lifecycle_backend.Migrations.Schema.{
  Migration, plain, enum, cascade, primary_key, unique, foreign_key, create_extension, create_type,
  drop_type, create_table, drop_table, create_index, drop_index, add_constraint, drop_constraint,
  required, optional, defaulted,
}

abbrev pub initial_schema : Migration
initial_schema = record {
  name = "InitialSchema1782896581863";
  up =
      create_extension
      ∷ create_type "users_role_enum" ("USER" ∷ "ADMIN" ∷ [])
      ∷ create_table record {
        name = "users";
        columns =
            defaulted "id" (plain "uuid") "uuid_generate_v4()"
            ∷ required "email" (plain "character varying")
            ∷ required "password" (plain "character varying")
            ∷ defaulted "role" (enum "users_role_enum") "USER"
            ∷ defaulted "disabled" (plain "boolean") "false"
            ∷ defaulted "createdAt" (plain "TIMESTAMP") "now()"
            ∷ [];
        constraints =
            record { name = "UQ_97672ac88f789774dd47f7c8be3"; kind = unique ("email" ∷ []) }
            ∷ record { name = "PK_a3ffb1c0c8416b9fc6f907b7433"; kind = primary_key ("id" ∷ []) }
            ∷ [];
      }
      ∷ create_table record {
        name = "refresh_tokens";
        columns =
            defaulted "id" (plain "uuid") "uuid_generate_v4()"
            ∷ required "userId" (plain "uuid")
            ∷ required "tokenHash" (plain "character varying")
            ∷ required "expiresAt" (plain "TIMESTAMP WITH TIME ZONE")
            ∷ defaulted "revoked" (plain "boolean") "false"
            ∷ defaulted "createdAt" (plain "TIMESTAMP") "now()"
            ∷ [];
        constraints =
            record { name = "PK_7d8bee0204106019488c4c50ffa"; kind = primary_key ("id" ∷ []) } ∷ [];
      }
      ∷ create_index record {
        name = "IDX_c25bc63d248ca90e8dcc1d92d0";
        table = "refresh_tokens";
        columns = "tokenHash" ∷ [];
        is_unique = true;
        predicate = none;
      }
      ∷ create_type "orders_status_enum"
          ("PENDING" ∷ "RESERVED" ∷ "PAID" ∷ "COMPLETED" ∷ "FAILED" ∷ [])
      ∷ create_table record {
        name = "orders";
        columns =
            defaulted "id" (plain "uuid") "uuid_generate_v4()"
            ∷ required "userId" (plain "uuid")
            ∷ defaulted "status" (enum "orders_status_enum") "PENDING"
            ∷ defaulted "createdAt" (plain "TIMESTAMP") "now()"
            ∷ defaulted "updatedAt" (plain "TIMESTAMP") "now()"
            ∷ [];
        constraints =
            record { name = "PK_710e2d4957aa5878dfe94e4ac2f"; kind = primary_key ("id" ∷ []) } ∷ [];
      }
      ∷ create_index record {
        name = "IDX_151b79a83ba240b0cb31b2302d";
        table = "orders";
        columns = "userId" ∷ [];
        is_unique = false;
        predicate = none;
      }
      ∷ create_table record {
        name = "processed_messages";
        columns =
            required "messageId" (plain "character varying")
            ∷ required "consumer" (plain "character varying")
            ∷ defaulted "processedAt" (plain "TIMESTAMP") "now()"
            ∷ [];
        constraints =
            record {
              name = "PK_71dbab7d259d139c9b339ba7de4";
              kind = primary_key ("messageId" ∷ "consumer" ∷ []);
            }
            ∷ [];
      }
      ∷ create_table record {
        name = "payment_authorizations";
        columns =
            required "orderId" (plain "character varying")
            ∷ required "authorized" (plain "boolean")
            ∷ optional "declineReason" (plain "character varying")
            ∷ defaulted "createdAt" (plain "TIMESTAMP") "now()"
            ∷ [];
        constraints =
            record { name = "PK_9ec838ab38023012e1f60809b1b"; kind = primary_key ("orderId" ∷ []) }
            ∷ [];
      }
      ∷ add_constraint "refresh_tokens" (record {
        name = "FK_610102b60fea1455310ccd299de";
        kind = foreign_key "userId" "users" cascade;
      })
      ∷ add_constraint "orders" (record {
        name = "FK_151b79a83ba240b0cb31b2302d1";
        kind = foreign_key "userId" "users" cascade;
      })
      ∷ [];
  down =
      drop_constraint "orders" "FK_151b79a83ba240b0cb31b2302d1"
      ∷ drop_constraint "refresh_tokens" "FK_610102b60fea1455310ccd299de"
      ∷ drop_table "payment_authorizations"
      ∷ drop_table "processed_messages"
      ∷ drop_index "IDX_151b79a83ba240b0cb31b2302d"
      ∷ drop_table "orders"
      ∷ drop_type "orders_status_enum"
      ∷ drop_index "IDX_c25bc63d248ca90e8dcc1d92d0"
      ∷ drop_table "refresh_tokens"
      ∷ drop_table "users"
      ∷ drop_type "users_role_enum"
      ∷ [];
}
