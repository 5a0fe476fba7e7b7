-- ===== src/Vmm/Fault/Resolve.antt =====
-- `vmm_resolve_cow` and `vmm_handle_page_fault` of kernel/mm/vmm.c.
use eter_os.Base.{Bool}
use eter_os.Vmm.{Vmm}
