-- ===== src/Core/Db.antt =====
-- The database that the modules of backend/app/modules share: a list of rows for each table, in the
-- order of insertion.
use retail_os.Prelude.{List, []}
use retail_os.Company.Models.{Company, Branch, Warehouse}
use retail_os.Users.Models.{User, Role, Permission, RolePermission, UserRole, UserBranch}
use retail_os.Catalog.Models.{
  Category, Brand, ProductUnit, Product, ProductVariant, ProductBarcode, ProductImage,
}
use retail_os.Inventory.Models.{StockLevel, StockTransfer, StockTransaction}
use retail_os.Auth.Models.{RefreshToken, PasswordResetToken}
use retail_os.Audit.Models.{AuditLog}

pub record Db : Type 0 where
  pub companies : List Company
  pub branches : List Branch
  pub warehouses : List Warehouse
  pub users : List User
  pub roles : List Role
  pub permissions : List Permission
  pub role_permissions : List RolePermission
  pub user_roles : List UserRole
  pub user_branches : List UserBranch
  pub categories : List Category
  pub brands : List Brand
  pub units : List ProductUnit
  pub products : List Product
  pub product_variants : List ProductVariant
  pub product_barcodes : List ProductBarcode
  pub product_images : List ProductImage
  pub stock_levels : List StockLevel
  pub stock_transfers : List StockTransfer
  pub stock_transactions : List StockTransaction
  pub refresh_tokens : List RefreshToken
  pub password_reset_tokens : List PasswordResetToken
  pub audit_logs : List AuditLog

abbrev pub empty_db : Db
empty_db = record {
  companies = [];
  branches = [];
  warehouses = [];
  users = [];
  roles = [];
  permissions = [];
  role_permissions = [];
  user_roles = [];
  user_branches = [];
  categories = [];
  brands = [];
  units = [];
  products = [];
  product_variants = [];
  product_barcodes = [];
  product_images = [];
  stock_levels = [];
  stock_transfers = [];
  stock_transactions = [];
  refresh_tokens = [];
  password_reset_tokens = [];
  audit_logs = [];
}
