-- ===== src/Users/Tests.antt =====
-- A company with one user, on which the theorems about users are run:
-- backend/app/modules/users_roles_permissions/service.py.
use retail_os.Users.Creating.{create_user-Creates, Creates}
use retail_os.Core.Security.{hash_password, Libraries}
use retail_os.Users.UserRepository.{no_branch}
use retail_os.Company.Models.{Branch, Company}
use retail_os.Users.Grants.{get_effective_permission_codes-grants}
use retail_os.Users.Updates.{user_update-once}
use retail_os.Prelude.Rows.{any}
use retail_os.Core.Exceptions.{conflict_exception}
use retail_os.Core.Db.{empty_db}
use retail_os.Users.RbacService.{get_effective_permission_codes}
use retail_os.Users.Schemas.{UserCreate, UserUpdate}
use retail_os.Core.Versioned.{versioned_update}
use retail_os.Core.Session.{for_each, ok, err, ◌>>=◌, start, Session}
use retail_os.Prelude.{refl, str_eq, [], ◌∷◌, false, ◌≡◌, some, true, none, List, String}
use retail_os.Users.Models.{read, User}
use retail_os.Users.UserService
use retail_os.Users.UserRepository

abbrev pub ann : User
ann = record {
  id = 5;
  company_id = 1;
  email = "ann@shop.in";
  phone = none;
  full_name = "Ann";
  password_hash = "secret";
  profile_photo_url = none;
  default_branch_id = none;
  is_active = true;
  must_change_password = false;
  failed_login_attempts = 0;
  locked_until = none;
  last_login_at = none;
  deleted_at = none;
  version = 1;
}

abbrev rename : String → UserUpdate
rename name = record {
  full_name = some (some name);
  phone = none;
  profile_photo_url = none;
  default_branch_id = none;
  is_active = none;
}

-- Ann holds a role to which one permission is attached.
abbrev pub office : Session
office = start 1000 100 (record empty_db {
  users = ann ∷ [];
  roles =
      record {
        id = 7;
        company_id = none;
        name = "Cashier";
        description = none;
        is_system = true;
        deleted_at = none;
      }
      ∷ [];
  permissions =
      record {
        id = 8;
        code = "inventory.read";
        permission_module = "inventory";
        screen = none;
        action = read;
        description = none;
      }
      ∷ [];
  role_permissions = record { role_id = 7; permission_id = 8 } ∷ [];
  user_roles = record { user_id = 5; role_id = 7 } ∷ [];
})

user_update-once_example :
    let s' = (UserService.update 1 5 (rename "Anna") 1 office).1 in
    UserService.update 1 5 (rename "Anne") 1 s'
    ≡ (err (conflict_exception "User was modified by someone else. Reload and try again."), s')
unfolding UserService.update versioned_update UserRepository.get_by_id ◌>>=◌
user_update-once_example =
    user_update-once 1 5 1 (rename "Anna") (rename "Anne") office
      {s' = (UserService.update 1 5 (rename "Anna") 1 office).1} refl refl refl

get_effective_permission_codes-grants_example :
    (codes : List String) × (get_effective_permission_codes 5 office ≡ (ok codes, office))
    × (any (str_eq "inventory.read") codes ≡ true)
get_effective_permission_codes-grants_example =
    get_effective_permission_codes-grants 5 "inventory.read" office

abbrev shop : Company
shop = record {
  id = 1;
  name = "Shop";
  brand_name = none;
  logo_url = none;
  gst_number = none;
  pan = none;
  address_line = none;
  city = none;
  state = none;
  country = none;
  pincode = none;
  mobile = none;
  email = none;
  website = none;
  currency = "INR";
  timezone = "Asia/Kolkata";
  financial_year_start_month = 4;
  invoice_prefix = none;
  invoice_footer = none;
  default_tax_percent = none;
  is_active = true;
  deleted_at = none;
  version = 1;
}

abbrev head_office : Branch
head_office = record {
  id = 2;
  company_id = 1;
  name = "Head Office";
  code = "HO";
  address_line = none;
  phone = none;
  gst_number = none;
  default_warehouse_id = none;
  manager_user_id = none;
  is_active = true;
  deleted_at = none;
  version = 1;
}

abbrev hiring : Session
hiring = record office {
  db = record (office.db) { companies = shop ∷ []; branches = head_office ∷ [] };
}

abbrev plain : Libraries
plain = record {
  jwt_encode = λ payload key algorithm. key;
  jwt_decode = λ now token key algorithm. none;
  argon2_hash = λ salt password. password;
  argon2_verify = λ hash password. str_eq hash password;
  sha256 = λ text. text;
  token_urlsafe = λ bytes. "";
}

abbrev bob : UserCreate
bob = record {
  email = "bob@shop.in";
  password = "password";
  full_name = "Bob";
  phone = none;
  default_branch_id = some 2;
  assigned_branch_ids = 2 ∷ 2 ∷ [];
  role_ids = 7 ∷ [];
}

create_user-Creates_example :
    Creates 1 bob hiring
      (UserService.new_user 100 1 bob "password")
      (UserService.create plain 1 bob hiring).1
unfolding UserService.create UserRepository.get_by_email UserRepository.create
    UserRepository.assign_branches UserRepository.assign_roles UserRepository.assign_branch
    UserRepository.assign_role hash_password for_each ◌>>=◌
create_user-Creates_example = create_user-Creates plain 1 bob hiring refl
