-- ===== src/Adapters/Springboot/Prompt.antt =====
-- The extraction prompt of app/adapters/springboot/source_adapter.py.
use stack_migrate.Base.{◌++◌, Text, codes}
use stack_migrate.Adapters.Source.{DiscoveredFile}

-- `build_extraction_prompt`
unfoldable pub extraction_prompt : DiscoveredFile → Text
extraction_prompt file =
    codes "You are analyzing a Spring Boot source file. Extract its semantic\n"
    ++ codes "content into the IR schema. Spring-specific mapping notes:\n"
    ++ codes "\n"
    ++ codes "- `@RestController` / `@RequestMapping` methods -> one EndpointUnit per HTTP-mapped\n"
    ++ codes "  method (`@GetMapping`, `@PostMapping`, etc). The class-level `@RequestMapping`\n"
    ++ codes "  path prefix must be combined with the method-level path.\n"
    ++ codes "- `@PathVariable` -> parameter source_location \"path param\".\n"
    ++ codes "  `@RequestParam` -> \"query param\". `@RequestBody` -> the request_body_model.\n"
    ++ codes "- `@PreAuthorize` / `@Secured` / Spring Security method annotations -> populate\n"
    ++ codes "  `auth_requirement` in plain language (e.g. \"requires ROLE_ADMIN\").\n"
    ++ codes "- `@Service` / `@Component` classes -> ServiceUnit. List constructor-injected\n"
    ++ codes "  dependencies (other services/repositories) in `depends_on`.\n"
    ++ codes "- `@Repository` interfaces (including Spring Data JPA interfaces like\n"
    ++ codes "  `JpaRepository<Order, Long>`) -> RepositoryUnit. Derived query methods\n"
    ++ codes "  (e.g. `findByEmailAndActiveTrue`) should each become one plain-language entry\n"
    ++ codes "  in `operations`.\n"
    ++ codes "- `@Entity` classes -> DataModelUnit. JPA relationship annotations\n"
    ++ codes "  (`@OneToMany`, `@ManyToOne`, etc) -> plain-language entries in `relationships`,\n"
    ++ codes "  e.g. \"has many OrderItem\" / \"belongs to Account\". Bean Validation annotations\n"
    ++ codes "  (`@NotNull`, `@Size`, etc) -> entries in the field's `constraints`.\n"
    ++ codes "- Put anything Spring-idiomatic that doesn't map cleanly onto the IR schema\n"
    ++ codes "  (e.g. `@Transactional` isolation level, `@Async`, AOP details) into\n"
    ++ codes "  `stack_specific_hints` rather than forcing it into a first-class field.\n"
    ++ codes "- If a referenced type (e.g. a service this class calls, or a repository's\n"
    ++ codes "  target entity) is defined in another file you haven't seen, refer to it by\n"
    ++ codes
        "  its plain class name in the relevant field (e.g. `calls_services: [\"OrderService\"]`)\n"
    ++ codes "  — a later resolution pass links these by name, you don't need to resolve them.\n"
    ++ codes "\n"
    ++ codes "File: "
    ++ file.relative_path
    ++ codes "\n"
    ++ codes "\n"
    ++ codes "```java\n"
    ++ file.content
    ++ codes "\n"
    ++ codes "```\n"
