-- ===== src/Rbac/Catalog.antt =====
-- backend/rbac/catalog.go: the permission catalog and the default roles.
use vpn_manager.Common.{String, List, [], ◌∷◌}
use vpn_manager.Rbac.Model.{wildcard}
use vpn_manager.Rbac.Resolve.{super_admin_role}

abbrev perm_users_view : String
perm_users_view = "users.view"

abbrev perm_users_create : String
perm_users_create = "users.create"

abbrev perm_users_update : String
perm_users_update = "users.update"

abbrev perm_users_delete : String
perm_users_delete = "users.delete"

abbrev perm_roles_view : String
perm_roles_view = "roles.view"

abbrev perm_roles_manage : String
perm_roles_manage = "roles.manage"

abbrev perm_permissions_view : String
perm_permissions_view = "permissions.view"

abbrev perm_interfaces_view : String
perm_interfaces_view = "interfaces.view"

abbrev perm_interfaces_create : String
perm_interfaces_create = "interfaces.create"

abbrev perm_interfaces_update : String
perm_interfaces_update = "interfaces.update"

abbrev perm_interfaces_delete : String
perm_interfaces_delete = "interfaces.delete"

abbrev perm_interfaces_sync : String
perm_interfaces_sync = "interfaces.sync"

abbrev perm_peers_view : String
perm_peers_view = "peers.view"

abbrev perm_peers_create : String
perm_peers_create = "peers.create"

abbrev perm_peers_update : String
perm_peers_update = "peers.update"

abbrev perm_peers_delete : String
perm_peers_delete = "peers.delete"

abbrev perm_port_forwards_view : String
perm_port_forwards_view = "portforwards.view"

abbrev perm_port_forwards_manage : String
perm_port_forwards_manage = "portforwards.manage"

abbrev perm_vpn_view : String
perm_vpn_view = "vpn.view"

abbrev perm_vpn_create : String
perm_vpn_create = "vpn.create"

abbrev perm_vpn_apply : String
perm_vpn_apply = "vpn.apply"

abbrev perm_openvpn_view : String
perm_openvpn_view = "openvpn.view"

abbrev perm_openvpn_create : String
perm_openvpn_create = "openvpn.create"

abbrev perm_openvpn_apply : String
perm_openvpn_apply = "openvpn.apply"

-- `permissionDef`
pub record PermissionDef : Type 0 where
  pub name : String
  pub description : String

abbrev def : String → String → PermissionDef
def name description = record { name = name; description = description }

-- `AllPermissions`
abbrev pub all_permissions : List PermissionDef
all_permissions =
    def wildcard "Full access (super admin); bypasses ownership scoping"
    ∷ def perm_users_view "View panel users"
    ∷ def perm_users_create "Create panel users"
    ∷ def perm_users_update "Update panel users, roles, and direct permissions"
    ∷ def perm_users_delete "Delete panel users"
    ∷ def perm_roles_view "View roles"
    ∷ def perm_roles_manage "Create, update, delete roles and their permissions"
    ∷ def perm_permissions_view "View the permission catalog"
    ∷ def perm_interfaces_view "View WireGuard interfaces"
    ∷ def perm_interfaces_create "Create WireGuard interfaces"
    ∷ def perm_interfaces_update "Update WireGuard interfaces"
    ∷ def perm_interfaces_delete "Delete/trash/restore WireGuard interfaces"
    ∷ def perm_interfaces_sync "Apply WireGuard interfaces to the kernel"
    ∷ def perm_peers_view "View peers"
    ∷ def perm_peers_create "Create peers"
    ∷ def perm_peers_update "Update peers"
    ∷ def perm_peers_delete "Delete/trash/restore peers"
    ∷ def perm_port_forwards_view "View public-IP port forwards"
    ∷ def perm_port_forwards_manage "Create, toggle, and delete public-IP port forwards"
    ∷ def perm_vpn_view "View VPN protocols, instances, plans, and status"
    ∷ def perm_vpn_create "Create VPN instance drafts (L2TP/IPsec, SSTP, PPTP)"
    ∷ def perm_vpn_apply "Apply VPN runtime for non-WireGuard protocols"
    ∷ def perm_openvpn_view "View OpenVPN instances, users, and manifests"
    ∷ def perm_openvpn_create "Create OpenVPN instances, users, and manifests"
    ∷ def perm_openvpn_apply "Apply OpenVPN runtime"
    ∷ []

-- `roleDef`
pub record RoleDef : Type 0 where
  pub name : String
  pub description : String
  pub permissions : List String

-- `DefaultRoles`
abbrev pub default_roles : List RoleDef
default_roles =
    record {
      name = super_admin_role;
      description = "Full access to everything";
      permissions = wildcard ∷ [];
    }
    ∷ record {
      name = "operator";
      description = "Manage VPNs (interfaces, peers, OpenVPN, other protocols) but not users/roles";
      permissions =
          perm_interfaces_view ∷ perm_interfaces_create ∷ perm_interfaces_update
          ∷ perm_interfaces_delete ∷ perm_interfaces_sync ∷ perm_peers_view ∷ perm_peers_create
          ∷ perm_peers_update ∷ perm_peers_delete ∷ perm_port_forwards_view
          ∷ perm_port_forwards_manage ∷ perm_vpn_view ∷ perm_vpn_create ∷ perm_vpn_apply
          ∷ perm_openvpn_view ∷ perm_openvpn_create ∷ perm_openvpn_apply ∷ [];
    }
    ∷ record {
      name = "viewer";
      description = "Read-only access to VPNs";
      permissions =
          perm_interfaces_view ∷ perm_peers_view ∷ perm_port_forwards_view ∷ perm_vpn_view
          ∷ perm_openvpn_view ∷ [];
    }
    ∷ []
